-- ===== src/Qf/Iterate/Forward.antt =====
-- The iterator of src/gqf.c moves on with each step.
use ski_rental_adaptive_qf.Prelude.{
  ℕ, ◌+◌, ◌*◌, ◌/◌, ◌≤◌, ◌<◌, ◌≡◌, Bool, true, false, arith, ltb, leb, ◌==◌, if◌then◌else◌, done,
  all-bind, all-done, all-if,
}
use ski_rental_adaptive_qf.Qf.{Qf, rounds}
use ski_rental_adaptive_qf.Qf.Runs.{skip_extensions}
use ski_rental_adaptive_qf.Qf.Bits.{is_runend}
use ski_rental_adaptive_qf.Qf.Extend.Recount.{skip_extensions-le}
use ski_rental_adaptive_qf.Qf.Iterate.{
  Qfi, select_occupied, next_occupied, qfi_end, next_run, qfi_next,
}

-- A step that finds an item has moved on; one that finds none leaves the iterator at its end.
unfoldable pub Moved : Qf → ℕ → Bool × Qfi → Type 0
Moved qf from (more, qfi) =
    (more ≡ true → from < qfi.current) × (more ≡ false → leb qf.xnslots qfi.current ≡ true)

found-Moved :
    (qf : Qf) (from run current : ℕ)
    → from < current
    → Moved qf from (true, record { run = run; current = current })
unfolding Moved
found-Moved qf from run current h = (λ _. h, λ e. cc)

ended-Moved :
    (qf : Qf) (from : ℕ) (qfi : Qfi)
    → leb qf.xnslots qfi.current ≡ true
    → Moved qf from (false, qfi)
unfolding Moved
ended-Moved qf from qfi h = (λ e. cc, λ _. h)

le_self : (n : ℕ) → leb n n ≡ true
le_self n = ground arith

further : (run current : ℕ) → current ≤ (if ltb current run then run else current)
further run current = ground arith

-- How next_run closes, for the block reached.
closed-Moved :
    (qf : Qf) (from run current : ℕ) (last : Bool)
    → from < current
    → Moved qf from (
        if last
        then (false, record { run = qf.xnslots; current = qf.xnslots })
        else (true, record { run = run; current = if ltb current run then run else current }))
closed-Moved qf from run current true h = ended-Moved qf from _ (le_self qf.xnslots)
closed-Moved qf from run current false h =
    found-Moved qf from run _ (omega (arith, further run current))

next_run-Moved :
    (qf : Qf) (from run current : ℕ)
    → from < current
    → (r : Bool × Qfi) → next_run qf run current ≡ done r
    → Moved qf from r
unfolding next_run
next_run-Moved qf from run current h =
    all-bind (Moved qf from) (select_occupied qf (run / 64) _) _ (λ idx e.
      all-bind (Moved qf from) (next_occupied (qf.nblocks + 1) qf (run / 64) idx) _ (λ (b, i) e.
        all-done (Moved qf from) _ (closed-Moved qf from (b * 64 + i) current (b == qf.nblocks) h)))

-- When qfi_next finds a next item, the iterator has moved to a slot further on, and when it finds
-- none, the iterator that it leaves is at its end.
pub qfi_next-forward :
    (qf : Qf) (qfi : Qfi) {more : Bool} {qfi' : Qfi}
    → qfi_next qf qfi ≡ done (more, qfi')
    → (more ≡ true → qfi.current < qfi'.current) × (more ≡ false → qfi_end qf qfi' ≡ true)
unfolding qfi_next qfi_end Moved
qfi_next-forward qf qfi {more} {qfi'} =
    all-if P (leb qf.xnslots qfi.current) _ _ (λ t. all-done P _ (ended-Moved qf qfi.current qfi t))
      (λ f. all-bind P (skip_extensions (rounds qf) qf (qfi.current + 1)) _ (λ current e.
        let h : qfi.current < current =
          omega (arith, skip_extensions-le (rounds qf) qf (qfi.current + 1) e) in
        all-if P (leb qf.xnslots current) _ _
          (λ t.
            all-done P _
              (ended-Moved qf qfi.current (record { run = qfi.run; current = current }) t))
          (λ f.
            all-if P (is_runend qf qfi.current) _ _
              (λ t. next_run-Moved qf qfi.current qfi.run current h)
              (λ f. all-done P _ (found-Moved qf qfi.current qfi.run current h)))))
      (more, qfi')
  where
    P : Bool × Qfi → Type 0
    P = Moved qf qfi.current
