-- ===== src/Word/Select.antt =====
-- bitselect of src/gqf.c, as a search for the 1 of a given rank.
use ski_rental_adaptive_qf.Prelude.{
  ◌%◌, Bool, false, ℕ, zero, suc, ◌+◌, ◌-◌, dec_lt, ◌≤◌, ◌<◌, ◌≡◌, refl, true, false, ◌&&◌, ◌==◌,
  ==_iff, arith, ap, Bool-cases, ◌⊎◌, inl, inr,
}
use ski_rental_adaptive_qf.Word.{
  Word, one_word, bit_val, count_ones, pdep, first_one, tzcnt, bitselect,
}
use ski_rental_adaptive_qf.Word.Rank.{count_ones_mono}
use mathlib.Core.Path.{subst, sym}

-- The lowest set bit of a range, or none.
abbrev Lowest : Word → ℕ → ℕ → ℕ → Type 0
Lowest w from n p =
    (w p ≡ true) × (from ≤ p) × (p < from + n) × ((j : ℕ) → from ≤ j → j < p → w j ≡ false)

first_one-Lowest :
    (w : Word) (from n : ℕ)
    → Lowest w from n (first_one w from n)
      ⊎ ((first_one w from n ≡ 64) × ((j : ℕ) → from ≤ j → j < from + n → w j ≡ false))
unfolding first_one
first_one-Lowest w from zero = inr (refl, λ j h k. absurd (omega arith))
first_one-Lowest w from (suc n) = elim (Bool-cases (w from)) [
  | inl set ↦ rw set (inl (set, omega arith, omega arith, λ j h k. absurd (omega arith)))
  | inr unset ↦ rw unset (elim (first_one-Lowest w (suc from) n) [
    | inl (bit, lo, hi, none) ↦ inl (bit, omega arith, omega arith, λ j h k. below unset none j h k)
    | inr (out, none) ↦ inr (out, λ j h k. below_all unset none j h k)
  ])
]
  where
    split : (j : ℕ) → from ≤ j → (j ≡ from) ⊎ (suc from ≤ j)
    split j h = ground arith

    below :
        w from ≡ false
        → ((j : ℕ) → suc from ≤ j → j < first_one w (suc from) n → w j ≡ false)
        → (j : ℕ) → from ≤ j
        → j < first_one w (suc from) n
        → w j ≡ false
    below unset none j h k = elim (split j h) [ inl e ↦ rw e unset | inr lt ↦ none j lt k ]

    below_all :
        w from ≡ false
        → ((j : ℕ) → suc from ≤ j → j < suc from + n → w j ≡ false)
        → (j : ℕ) → from ≤ j
        → j < from + suc n
        → w j ≡ false
    below_all unset none j h k = elim (split j h) [
      | inl e ↦ rw e unset
      | inr lt ↦ none j lt (omega arith)
    ]

-- If no set bit of the first n has r ones before it, there are at most r ones.
count_ones-le_of_none :
    (w : Word) (r n : ℕ)
    → ((j : ℕ) → j < n → (w j && (count_ones w j == r)) ≡ false)
    → count_ones w n ≤ r
unfolding count_ones
count_ones-le_of_none w r zero h = omega arith
count_ones-le_of_none w r (suc n) h =
    let ih = count_ones-le_of_none w r n (λ j lt. h j (omega arith)) in
    let last = h n (omega arith) in ground arith

and-eq_true : (a b : Bool) → (a && b) ≡ true → (a ≡ true) × (b ≡ true)
and-eq_true true b h = (refl, h)
and-eq_true false b h = cc

-- A position p answers the question for the r'th 1 of w.
abbrev pub IsSelected : Word → ℕ → ℕ → Type 0
IsSelected w r p = (p < 64) × (w p ≡ true) × (count_ones w p ≡ r)

-- The search behind bitselect, for any rank.
pub selected :
    (w : Word) (rank : ℕ)
    → IsSelected w rank (tzcnt (pdep (one_word rank) w))
      ⊎ ((tzcnt (pdep (one_word rank) w) ≡ 64) × (count_ones w 64 ≤ rank))
unfolding tzcnt pdep
selected w rank = elim (first_one-Lowest (pdep (one_word rank) w) 0 64) [
  | inl (bit, lo, hi, none) ↦
      let (set, below) = and-eq_true _ _ bit in inl (hi, set, (==_iff _ rank).0 below)
  | inr (out, none) ↦
      inr (out, count_ones-le_of_none w rank 64 (λ j lt. none j (omega arith) (omega arith)))
]

-- For a rank below 64, bitselect returns the position of a 1 that has exactly rank ones below it, or
-- 64 when the word has at most rank ones.
pub bitselect_lem :
    (w : Word) (rank : ℕ)
    → rank < 64
    → IsSelected w rank (bitselect w rank) ⊎ ((bitselect w rank ≡ 64) × (count_ones w 64 ≤ rank))
unfolding bitselect
bitselect_lem w rank lt =
    let e : rank % 64 ≡ rank = omega arith in
    subst
      (λ (n : ℕ).
        IsSelected w rank (tzcnt (pdep (one_word n) w))
        ⊎ ((tzcnt (pdep (one_word n) w) ≡ 64) × (count_ones w 64 ≤ rank)))
      (sym e) (selected w rank)

-- The answer is unique: two set bits with as many ones below them are the same bit.
pub IsSelected-unique : (w : Word) (r p q : ℕ) → IsSelected w r p → IsSelected w r q → p ≡ q
unfolding count_ones
IsSelected-unique w r p q (a, b, c) (d, e, f) = elim (dec_lt p q) [
  | yes lt ↦
      let more = count_ones_mono w (suc p) (q - suc p) in
      let s : suc p + (q - suc p) ≡ q = omega arith in
      absurd (omega (arith, rw s at more, ap bit_val b))
  | no ge ↦ elim (dec_lt q p) [
    | yes lt ↦
        let more = count_ones_mono w (suc q) (p - suc q) in
        let s : suc q + (p - suc q) ≡ p = omega arith in
        absurd (omega (arith, rw s at more, ap bit_val e))
    | no le ↦ omega arith
  ]
]
