-- ===== src/Qf/Iterate/Wraps.antt =====
-- The step of the iterator of src/gqf.c from the last bucket of a block that is full.
use ski_rental_adaptive_qf.Prelude.{
  ℕ, zero, suc, ◌+◌, ◌*◌, ◌/◌, ◌%◌, ◌<◌, ◌≡◌, refl, sym, ap, ◌∙◌, inl, inr, Bool, true, false,
  arith, ltb, leb, ◌==◌, if◌then◌else◌, done, abort, spin, all-bind, all-done, all-if,
}
use ski_rental_adaptive_qf.Qf.{Qf, rounds}
use ski_rental_adaptive_qf.Word.{Word, count_ones, popcnt, bitrank, bitselect}
use ski_rental_adaptive_qf.Word.Select.{selected}
use ski_rental_adaptive_qf.Row.{word}
use ski_rental_adaptive_qf.Qf.Bits.{is_runend}
use ski_rental_adaptive_qf.Qf.Runs.{skip_extensions}
use ski_rental_adaptive_qf.Qf.Iterate.{
  Qfi, select_occupied, next_occupied, qfi_end, next_run, qfi_next,
}
use mathlib.Core.Path.{subst}

count_ones-full : (w : Word) (n : ℕ) → ((i : ℕ) → i < n → w i ≡ true) → count_ones w n ≡ n
unfolding count_ones
count_ones-full w zero all = refl
count_ones-full w (suc n) all =
    let ih = count_ones-full w n (λ i lt. all i (omega arith)) in
    let last = all n (omega arith) in rw (ih, last) (omega arith)

-- A word of 64 ones has rank 64 at its end, and the search for a 1 of this rank gives the first 1.
bitrank-full : (w : Word) → ((i : ℕ) → i < 64 → w i ≡ true) → bitrank w 63 ≡ 64
unfolding bitrank popcnt
bitrank-full w all = count_ones-full _ 64 (λ i lt. let e = all i lt in ground arith)

pub bitselect-wraps : (w : Word) → ((i : ℕ) → i < 64 → w i ≡ true) → bitselect w 64 ≡ 0
unfolding bitselect
bitselect-wraps w all = elim (selected w 0) [
  | inl (lt, set, none_below) ↦
      sym (count_ones-full w _ (λ i below. all i (omega arith))) ∙ none_below
  | inr (out, few) ↦ absurd (omega (arith, count_ones-full w 64 all))
]

below : (a b : ℕ) → a < b → (leb a b ≡ true) × ((a == b) ≡ false)
below a b lt = (ground arith, ground arith)

next_run-wraps :
    (qf : Qf) (run current : ℕ)
    → ((i : ℕ) → i < 64 → word qf.occupieds (run / 64) i ≡ true)
    → run % 64 ≡ 63
    → run / 64 < qf.nblocks
    → next_run qf run current
      ≡ done (
        true,
        record {
          run = run / 64 * 64 + 0;
          current = if ltb current (run / 64 * 64 + 0) then run / 64 * 64 + 0 else current;
        },
      )
unfolding next_run select_occupied next_occupied
next_run-wraps qf run current all last inside =
    let rank = bitrank-full (word qf.occupieds (run / 64)) all in
    let found = bitselect-wraps (word qf.occupieds (run / 64)) all in
    let within : leb (run / 64) qf.nblocks ≡ true = (below (run / 64) qf.nblocks inside).0 in
    let fuel : qf.nblocks + 1 ≡ suc qf.nblocks = omega arith in
    let before : (run / 64 == qf.nblocks) ≡ false = (below (run / 64) qf.nblocks inside).1 in
    rw (last, rank, found, within, fuel, before) refl

-- At the end of a run of the last bucket of a block of which each bucket is occupied, qfi_next does
-- not go on to a later block: if it finds a next item, the bucket that it says the item has is the
-- first one of the same block.
pub qfi_next-wraps :
    (qf : Qf) (qfi : Qfi) {qfi' : Qfi}
    → ((i : ℕ) → i < 64 → word qf.occupieds (qfi.run / 64) i ≡ true)
    → qfi.run % 64 ≡ 63
    → qfi.run / 64 < qf.nblocks
    → is_runend qf qfi.current ≡ true
    → qfi_next qf qfi ≡ done (true, qfi')
    → qfi'.run ≡ qfi.run / 64 * 64
unfolding qfi_next
qfi_next-wraps qf qfi {qfi'} all last inside ended h =
    all-if P (qfi_end qf qfi) _ _ (λ _. all-done P (false, qfi) (λ e. cc))
      (λ _. all-bind P (skip_extensions (rounds qf) qf (qfi.current + 1)) _ (λ current _.
        all-if P (leb qf.xnslots current) _ _ (λ _. all-done P (false, _) (λ e. cc))
          (λ _.
            all-if P (is_runend qf qfi.current) _ _
              (λ _ r e.
                subst P (done_eq (sym (next_run-wraps qf qfi.run current all last inside) ∙ e))
                  (λ _. omega arith))
              (λ no_end. not_both ended no_end))))
      (true, qfi') h refl
  where
    P : Bool × Qfi → Type 0
    P r = r.0 ≡ true → r.1.run ≡ qfi.run / 64 * 64

    done_eq : {r r' : Bool × Qfi} → done r ≡ done r' → r ≡ r'
    done_eq {r} e = ap (λ o. elim o [ done x ↦ x | abort ↦ r | spin ↦ r ]) e

    not_both : {A : Type 0} {b : Bool} → b ≡ true → b ≡ false → A
    not_both t f = cc
