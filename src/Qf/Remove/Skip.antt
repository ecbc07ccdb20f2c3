-- ===== src/Qf/Remove/Skip.antt =====
-- The walk of _remove in src/gqf.c to the next item, beside that of the queries.
use ski_rental_adaptive_qf.Prelude.{
  ℕ, zero, suc, ◌+◌, ◌-◌, ◌*◌, ◌/◌, ◌%◌, ◌≤◌, ◌<◌, ◌≡◌, refl, sym, ap, ◌∙◌, Bool, true, false,
  arith, if◌then◌else◌, done, all-done, all-elim,
}
use ski_rental_adaptive_qf.Qf.{Qf}
use ski_rental_adaptive_qf.Qf.Bits.{is_extension_or_counter}
use mathlib.Core.Path.{subst}
use ski_rental_adaptive_qf.Qf.Runs.{skip_extensions}
use ski_rental_adaptive_qf.Qf.Remove.{skip_by_two}

-- The k slots behind slot i are extension or counter slots, and the next one is not.
abbrev pub HasMarks : Qf → ℕ → ℕ → Type 0
HasMarks qf i k =
    ((j : ℕ) → i < j → j ≤ i + k → is_extension_or_counter qf j ≡ true)
    × (is_extension_or_counter qf (i + 1 + k) ≡ false)

less-HasMarks : (qf : Qf) (i n k : ℕ) {l : ℕ} → l ≡ n + k → HasMarks qf i l → HasMarks qf (i + n) k
less-HasMarks qf i n k {l} e (marks, stop) = (
  λ j lo hi. marks j (omega arith) (omega arith),
  subst (λ (t : ℕ). is_extension_or_counter qf t ≡ false) {x = i + 1 + l} {y = i + n + 1 + k}
      (omega arith) stop,
)

no_mark : (qf : Qf) (i k : ℕ) → k ≡ 0 → HasMarks qf i k → is_extension_or_counter qf (i + 1) ≡ false
no_mark qf i k e (marks, stop) =
    subst (λ (t : ℕ). is_extension_or_counter qf t ≡ false) {x = i + 1 + k} {y = i + 1}
      (omega arith) stop

-- One round of each walk.
extension_here :
    (fuel : ℕ) (qf : Qf) (i : ℕ) {b : Bool}
    → is_extension_or_counter qf i ≡ b
    → skip_extensions (suc fuel) qf i ≡ (if b then skip_extensions fuel qf (i + 1) else done i)
unfolding skip_extensions
extension_here fuel qf i {b = true} e =
    ap (λ (c : Bool). elim c [ true ↦ skip_extensions fuel qf (i + 1) | false ↦ done i ]) e
extension_here fuel qf i {b = false} e =
    ap (λ (c : Bool). elim c [ true ↦ skip_extensions fuel qf (i + 1) | false ↦ done i ]) e

one_round :
    (fuel : ℕ) (qf : Qf) (i : ℕ) {b : Bool}
    → is_extension_or_counter qf (i + 1) ≡ b
    → skip_by_two (suc fuel) qf i ≡ (if b then skip_by_two fuel qf (i + 1 + 1) else done (i + 1))
unfolding skip_by_two
one_round fuel qf i {b = true} e =
    ap (λ (c : Bool). elim c [ true ↦ skip_by_two fuel qf (i + 1 + 1) | false ↦ done (i + 1) ]) e
one_round fuel qf i {b = false} e =
    ap (λ (c : Bool). elim c [ true ↦ skip_by_two fuel qf (i + 1 + 1) | false ↦ done (i + 1) ]) e

skip_extensions-marks :
    (k fuel : ℕ) (qf : Qf) (i : ℕ)
    → HasMarks qf i k
    → k < fuel
    → skip_extensions fuel qf (i + 1) ≡ done (i + 1 + k)
skip_extensions-marks k zero qf i h lt = absurd (omega arith)
skip_extensions-marks zero (suc fuel) qf i h lt =
    let none_there = no_mark qf i 0 refl h in
    extension_here fuel qf (i + 1) none_there
    ∙ ap (λ (n : ℕ). done n) {x = i + 1} {y = i + 1 + 0} (omega arith)
skip_extensions-marks (suc k) (suc fuel) qf i h lt =
    let marked = h.0 (i + 1) (omega arith) (omega arith) in
    let e : i + 1 + 1 + k ≡ i + 1 + suc k = omega arith in
    let ih =
      skip_extensions-marks k fuel qf (i + 1) (less-HasMarks qf i 1 k (omega arith) h)
        (omega arith) in
    extension_here fuel qf (i + 1) marked ∙ ih ∙ ap (λ (n : ℕ). done n) e

skip_by_two-further : (fuel : ℕ) (qf : Qf) (i n : ℕ) → skip_by_two fuel qf i ≡ done n → i < n
unfolding skip_by_two
skip_by_two-further zero qf i = λ n h. cc
skip_by_two-further (suc fuel) qf i =
    all-elim (λ n. i < n) (is_extension_or_counter qf (i + 1)) _ _
      (λ _ n h. omega (arith, skip_by_two-further fuel qf (i + 1 + 1) n h))
      (λ _. all-done (λ n. i < n) (i + 1) (omega arith))

-- After m rounds that each pass over two marked slots.
skip_by_two-rounds :
    (m k fuel : ℕ) (qf : Qf) (i : ℕ)
    → HasMarks qf i (2 * m + k)
    → skip_by_two (fuel + m) qf i ≡ skip_by_two fuel qf (i + 2 * m)
skip_by_two-rounds zero k fuel qf i h =
    let e₁ : fuel + 0 ≡ fuel = omega arith in
    let e₂ : i + 2 * 0 ≡ i = omega arith in rw (e₁, e₂) refl
skip_by_two-rounds (suc m) k fuel qf i h =
    let marked = h.0 (i + 1) (omega arith) (omega arith) in
    let e₁ : fuel + suc m ≡ suc (fuel + m) = omega arith in
    let e₂ : i + 1 + 1 + 2 * m ≡ i + 2 * suc m = omega arith in
    let e₃ : i + 2 ≡ i + 1 + 1 = omega arith in
    let less = less-HasMarks qf i 2 (2 * m + k) (omega arith) h in
    let ih =
      skip_by_two-rounds m k fuel qf (i + 1 + 1)
        (subst (λ (n : ℕ). HasMarks qf n (2 * m + k)) e₃ less) in
    ap (λ (n : ℕ). skip_by_two n qf i) e₁
    ∙ one_round (fuel + m) qf i marked
    ∙ ih
    ∙ ap (λ (n : ℕ). skip_by_two fuel qf n) e₂

-- Behind an item in slot i that k extension and counter slots follow, the walk of the queries comes
-- to the slot behind them, which is that of the next item. The walk of _remove comes there if k is
-- even; if k is odd, it passes over this slot. Fuel of more than k rounds is given to the walks.
pub skip_by_two_lem :
    (qf : Qf) (i k more : ℕ)
    → HasMarks qf i k
    → (skip_extensions (k + suc more) qf (i + 1) ≡ done (i + 1 + k))
      × (k % 2 ≡ 0 → skip_by_two (k + suc more) qf i ≡ done (i + 1 + k))
      × (k % 2 ≡ 1 → (n : ℕ) → skip_by_two (k + suc more) qf i ≡ done n → i + 1 + k < n)
skip_by_two_lem qf i k more h = (
  skip_extensions-marks k (k + suc more) qf i h (omega arith),
  λ even.
      let run = two_by_two 0 (omega arith) in
      let none_there =
        no_mark qf (i + 2 * (k / 2)) 0 refl (less-HasMarks qf i (2 * (k / 2)) 0 (omega arith) h) in
      let e : i + 2 * (k / 2) + 1 ≡ i + 1 + k = omega arith in
      run ∙ one_round (k - k / 2 + more) qf (i + 2 * (k / 2)) none_there ∙ ap (λ (n : ℕ). done n) e,
  λ odd n r.
      let run = two_by_two 1 (omega arith) in
      let marked = h.0 (i + 2 * (k / 2) + 1) (omega arith) (omega arith) in
      let rest = sym (run ∙ one_round (k - k / 2 + more) qf (i + 2 * (k / 2)) marked) ∙ r in
      omega (arith, skip_by_two-further (k - k / 2 + more) qf (i + 2 * (k / 2) + 1 + 1) n rest),
)
  where
    two_by_two :
        (rest : ℕ)
        → k ≡ 2 * (k / 2) + rest
        → skip_by_two (k + suc more) qf i
          ≡ skip_by_two (suc (k - k / 2 + more)) qf (i + 2 * (k / 2))
    two_by_two rest e =
        ap (λ (n : ℕ). skip_by_two n qf i) {x = k + suc more} {y = suc (k - k / 2 + more) + k / 2}
          (omega arith)
        ∙ skip_by_two-rounds (k / 2) rest (suc (k - k / 2 + more)) qf i
            (subst (λ (n : ℕ). HasMarks qf i n) e h)
