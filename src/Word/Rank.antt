-- ===== src/Word/Rank.antt =====
-- popcnt, popcntv and bitrank of src/gqf.c, as counts of ones.
use ski_rental_adaptive_qf.Prelude.{
  ℕ, zero, suc, ◌+◌, ◌-◌, ◌%◌, ◌≤◌, ◌<◌, ◌≡◌, refl, false, ◌==◌, arith, ap, Bool-cases, inl, inr,
}
use ski_rental_adaptive_qf.Word.{
  Word, ◌&w◌, not_word, bitmask_word, bit_val, count_ones, popcnt, popcntv, bitrank,
}

-- Words that agree below n have as many ones there.
pub count_ones-congr :
    (v w : Word) (n : ℕ) → ((i : ℕ) → i < n → v i ≡ w i) → count_ones v n ≡ count_ones w n
unfolding count_ones
count_ones-congr v w zero h = refl
count_ones-congr v w (suc n) h =
    let ih = count_ones-congr v w n (λ i lt. h i (omega arith)) in
    let e = h n (omega arith) in omega (arith, ih, ap bit_val e)

pub count_ones-le : (w : Word) (n : ℕ) → count_ones w n ≤ n
unfolding count_ones
count_ones-le w zero = omega arith
count_ones-le w (suc n) = ground (arith, count_ones-le w n)

-- The ones below m are counted before those from m on.
pub count_ones_mono : (w : Word) (m k : ℕ) → count_ones w m ≤ count_ones w (m + k)
unfolding count_ones
count_ones_mono w m zero = let e : m + 0 ≡ m = omega arith in rw e (omega arith)
count_ones_mono w m (suc k) =
    let ih = count_ones_mono w m k in
    let e : m + suc k ≡ suc (m + k) = omega arith in rw e (omega (arith, ih))

-- A word with no ones below n counts none there.
count_ones-none : (w : Word) (n : ℕ) → ((i : ℕ) → i < n → w i ≡ false) → count_ones w n ≡ 0
unfolding count_ones
count_ones-none w zero h = refl
count_ones-none w (suc n) h =
    omega (arith, count_ones-none w n (λ i lt. h i (omega arith)), ap bit_val (h n (omega arith)))

-- A mask of the positions below k leaves the ones there and no others.
count_ones-mask_low :
    (w : Word) (k m : ℕ) → count_ones (w &w bitmask_word k) (k + m) ≡ count_ones w k
unfolding count_ones
count_ones-mask_low w k zero =
    let e : k + 0 ≡ k = omega arith in
    rw e (count_ones-congr (w &w bitmask_word k) w k (λ i lt. ground arith))
count_ones-mask_low w k (suc m) =
    let e : k + suc m ≡ suc (k + m) = omega arith in
    let ih = count_ones-mask_low w k m in rw e (ground arith)

-- The ones from k on and those below k make up all ones.
pub count_ones-mask_high :
    (w : Word) (k m : ℕ)
    → count_ones (w &w not_word (bitmask_word k)) (k + m) + count_ones w k ≡ count_ones w (k + m)
unfolding count_ones
count_ones-mask_high w k zero =
    let e : k + 0 ≡ k = omega arith in
    rw e (omega (arith, count_ones-none (w &w not_word (bitmask_word k)) k (λ i lt. ground arith)))
count_ones-mask_high w k (suc m) =
    let e : k + suc m ≡ suc (k + m) = omega arith in
    let ih = count_ones-mask_high w k m in rw e (ground arith)

-- bitrank counts the ones at the positions up to pos, pos included.
pub bitrank_lem : (w : Word) (pos : ℕ) → pos < 64 → bitrank w pos ≡ count_ones w (suc pos)
unfolding bitrank popcnt
bitrank_lem w pos h =
    let all : pos + 1 + (63 - pos) ≡ 64 = omega arith in
    let e : suc pos ≡ pos + 1 = omega arith in
    rw e (rw all at (count_ones-mask_low w (pos + 1) (63 - pos)))

-- popcntv counts the ones at or above the position that it is given.
pub popcntv_lem :
    (w : Word) (ignore : ℕ) → popcntv w ignore + count_ones w (ignore % 64) ≡ count_ones w 64
unfolding popcntv popcnt count_ones
popcntv_lem w ignore =
    let all : ignore % 64 + (64 - ignore % 64) ≡ 64 = omega arith in
    let high = rw all at (count_ones-mask_high w (ignore % 64) (64 - ignore % 64)) in
    elim (Bool-cases ((ignore % 64) == 0)) [
      | inl z ↦ let e : ignore % 64 ≡ 0 = ground arith in rw (z, e) (bottom w)
      | inr nz ↦ rw nz high
    ]
  where
    bottom : (v : Word) → count_ones v 64 + count_ones v 0 ≡ count_ones v 64
    bottom v = omega arith
