-- ===== src/Row/Shift.antt =====
-- shift_remainders and shift_runends of src/gqf.c, seen bit by bit over a whole row.
use ski_rental_adaptive_qf.Prelude.{
  not, ℕ, zero, suc, ◌+◌, ◌-◌, ◌*◌, ◌/◌, ◌%◌, ◌≤◌, ◌<◌, ◌≡◌, refl, Bool, false, ◌||◌, ltb, leb,
  ◌==◌, if◌then◌else◌, arith, ap, ◌∙◌, ℕ_discrete, ◌≢◌,
}
use ski_rental_adaptive_qf.Word.{Word, zero_word, shift_into_b}
use ski_rental_adaptive_qf.Word.ShiftInto.{shift_into_b_lem}
use ski_rental_adaptive_qf.Row.{Row, word, set_word, shift_words, shift_row}

-- The bits of [first, end) are moved up by amount, and what moves past `end` is lost. In the gap of
-- `amount` bits at the bottom, zeros come in up to the end of the first word, and above it the bits
-- that stood below `first`.
abbrev pub moved_bit : Row → ℕ → ℕ → ℕ → ℕ → Bool
moved_bit row first end amount i =
    if ltb i first || leb end i
    then row i
    else if leb (first + amount) i || not ((i / 64) == (first / 64))
    then row (i - amount)
    else false

set_word_lem :
    (row : Row) (b : ℕ) (w : Word) (i : ℕ)
    → ((i / 64 ≡ b) → set_word row b w i ≡ w (i % 64)) × ((i / 64 ≢ b) → set_word row b w i ≡ row i)
set_word_lem row b w i = (λ e. ground arith, λ e. ground arith)

last_word_lem :
    (row : Row) (fw bs be am i : ℕ)
    → bs < 64
    → bs ≤ be
    → be ≤ 64
    → 0 < am
    → am < 64
    → set_word row fw (shift_into_b zero_word (word row fw) bs be am) i
      ≡ moved_bit row (64 * fw + bs) (64 * fw + be) am i
last_word_lem row fw bs be am i p h q z r = elim (ℕ_discrete (i / 64) fw) [
  | yes e ↦
      (set_word_lem row fw (shift_into_b zero_word (word row fw) bs be am) i).0 e
      ∙ shift_into_b_lem zero_word (word row fw) bs be am (i % 64) h q z r (omega arith)
      ∙ ground arith
  | no ne ↦
      (set_word_lem row fw (shift_into_b zero_word (word row fw) bs be am) i).1 ne ∙ ground arith
]

-- The word above: of its bits below `be`, bit j takes the bit `am` places further down.
above_lem :
    (row : Row) (lw be am i : ℕ)
    → be ≤ 64
    → 0 < am
    → am < 64
    → set_word row (suc lw) (shift_into_b (word row lw) (word row (suc lw)) 0 be am) i
      ≡ (if ltb i (64 * suc lw) || leb (64 * suc lw + be) i then row i else row (i - am))
above_lem row lw be am i q z r = elim (ℕ_discrete (i / 64) (suc lw)) [
  | yes e ↦
      (set_word_lem row (suc lw) (shift_into_b (word row lw) (word row (suc lw)) 0 be am) i).0 e
      ∙ shift_into_b_lem (word row lw) (word row (suc lw)) 0 be am (i % 64) (omega arith) q z r
          (omega arith)
      ∙ ground arith
  | no ne ↦
      (set_word_lem row (suc lw) (shift_into_b (word row lw) (word row (suc lw)) 0 be am) i).1 ne
      ∙ ground arith
]

-- One word above the first is shifted before the words below it.
upper_word_lem :
    (row row' : Row) (start lw be am i low high : ℕ)
    → low ≡ 64 * suc lw
    → high ≡ 64 * suc lw + be
    → start < 64 * suc lw
    → 0 < am
    → am < 64
    → ((j : ℕ)
        → row' j
          ≡ (if ltb j (64 * suc lw) || leb (64 * suc lw + be) j then row j else row (j - am)))
    → moved_bit row' start low am i ≡ moved_bit row start high am i
upper_word_lem row row' start lw be am i low high u v h z r law =
    ground (arith, law i, law (i - am))

shift_words_lem :
    (n : ℕ) (row : Row) (first_word bstart bend amount i : ℕ)
    → bstart < 64
    → bend ≤ 64
    → 0 < amount
    → amount < 64
    → 64 * first_word + bstart ≤ 64 * (first_word + n) + bend
    → shift_words n row first_word bstart bend amount i
      ≡ moved_bit row (64 * first_word + bstart) (64 * (first_word + n) + bend) amount i
unfolding shift_words
shift_words_lem zero row fw bs be am i p q z r h =
    let e : fw + 0 ≡ fw = omega arith in
    rw e (last_word_lem row fw bs be am i p (omega arith) q z r)
shift_words_lem (suc n) row fw bs be am i p q z r h =
    let lw : ℕ = fw + suc n in
    let row' : Row = set_word row lw (shift_into_b (word row (lw - 1)) (word row lw) 0 be am) in
    let law = λ (j : ℕ). row'-law row' j refl in
    let ih = shift_words_lem n row' fw bs 64 am i p (omega arith) z r (omega arith) in
    ih
    ∙ upper_word_lem row row' (64 * fw + bs) (fw + n) be am i (64 * (fw + n) + 64)
        (64 * (fw + suc n) + be) (omega arith) (omega arith) (omega arith) z r law
  where
    row'-law :
        (row' : Row) (j : ℕ)
        → row'
          ≡ set_word row
              (fw + suc n)
              (shift_into_b (word row (fw + suc n - 1)) (word row (fw + suc n)) 0 be am)
        → row' j ≡ (
            if ltb j (64 * suc (fw + n)) || leb (64 * suc (fw + n) + be) j
            then row j
            else row (j - am))
    row'-law row' j e =
        let e1 : fw + suc n ≡ suc (fw + n) = omega arith in
        let e2 : suc (fw + n) - 1 ≡ fw + n = omega arith in
        (rw (e1, e2) at (ap (λ (f : Row). f j) e)) ∙ above_lem row (fw + n) be am j q z r

-- shift_row moves the bits of a stretch of any length, over all its words, by 1 to 63 places.
pub shift_row_lem :
    (row : Row) (first end amount i : ℕ)
    → first ≤ end
    → 0 < amount
    → amount < 64
    → shift_row row first end amount i ≡ moved_bit row first end amount i
unfolding shift_row
shift_row_lem row first end am i h z r =
    shift_words_lem (end / 64 - first / 64) row (first / 64) (first % 64) (end % 64) am i
      (omega arith) (omega arith) z r (omega arith)
    ∙ ends row (64 * (first / 64) + first % 64)
        (64 * (first / 64 + (end / 64 - first / 64)) + end % 64) am i (omega arith) (omega arith)
  where
    ends :
        (row : Row) (x y am i : ℕ)
        → x ≡ first
        → y ≡ end
        → moved_bit row x y am i ≡ moved_bit row first end am i
    ends row x y am i p q = rw (p, q)
