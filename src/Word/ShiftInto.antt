-- ===== src/Word/ShiftInto.antt =====
-- shift_into_b of src/gqf.c, bit by bit.
use ski_rental_adaptive_qf.Prelude.{
  ◌%◌, ℕ, ◌+◌, ◌-◌, ◌≤◌, ◌<◌, ◌≡◌, Bool, false, ◌||◌, ltb, leb, ◌==◌, if◌then◌else◌, arith,
}
use ski_rental_adaptive_qf.Word.{Word, shift_into_b}

-- The bits from bstart up to bend move up by amount. What moves beyond bend is lost; what comes in
-- at the bottom are the top bits of `a` at bstart = 0 and zeros otherwise.
abbrev pub shifted_bit : Word → Word → ℕ → ℕ → ℕ → ℕ → Bool
shifted_bit a b bstart bend amount i =
    if ltb i bstart || leb bend i
    then b i
    else if leb (bstart + amount) i
    then b (i - amount)
    else if bstart == 0
    then a (i + (64 - amount))
    else false

pub shift_into_b_lem :
    (a b : Word) (bstart bend amount i : ℕ)
    → bstart ≤ bend
    → bend ≤ 64
    → 0 < amount
    → amount < 64
    → i < 64
    → shift_into_b a b bstart bend amount i ≡ shifted_bit a b bstart bend amount i
unfolding shift_into_b
shift_into_b_lem a b bstart bend amount i p q z r s =
    let e₁ : amount % 64 ≡ amount = omega arith in
    let e₂ : (64 - amount) % 64 ≡ 64 - amount = omega arith in rw (e₁, e₂) (ground arith)
