-- ===== src/Hash/Inverse/Stages.antt =====
-- hash_64 and hash_64i of src/hashutil.c as chains of stages, and the round trip.
use ski_rental_adaptive_qf.Prelude.{
  ℕ, ◌-◌, ◌^◌, ◌≤◌, ◌<◌, bit_and, bit_xor, ◌≡◌, refl, sym, ap, ◌∙◌,
}
use ski_rental_adaptive_qf.Hash.{add64, sub64, mul64, not64, shl, shr, hash_64, hash_64i}
use ski_rental_adaptive_qf.Hash.Xor.{bit_and-mask}
use ski_rental_adaptive_qf.Hash.Inverse.{
  word_of, undo_shift_28, undo_shift_24, undo_shift_14, undo_times_31, undo_times_21,
  undo_times_265, undo_affine, xor_shift-lt,
}
use ski_rental_adaptive_qf.Arith.{low_bits-lt}

-- `key ^ key >> s`
xor_shift : ℕ → ℕ → ℕ
xor_shift s key = bit_xor key (shr key s)

module _ (mask : ℕ) where
  affine : ℕ → ℕ
  affine key = bit_and (add64 (not64 key) (shl key 21)) mask

  times_265 : ℕ → ℕ
  times_265 key = bit_and (add64 (add64 key (shl key 3)) (shl key 8)) mask

  times_21 : ℕ → ℕ
  times_21 key = bit_and (add64 (add64 key (shl key 2)) (shl key 4)) mask

  times_31 : ℕ → ℕ
  times_31 key = bit_and (add64 key (shl key 31)) mask

  invert_31 : ℕ → ℕ
  invert_31 key = bit_and (sub64 key (shl (sub64 key (shl key 31)) 31)) mask

  invert_21 : ℕ → ℕ
  invert_21 key = bit_and (mul64 key 14933078535860113213) mask

  invert_265 : ℕ → ℕ
  invert_265 key = bit_and (mul64 key 15244667743933553977) mask

  invert_affine : ℕ → ℕ
  invert_affine key =
      bit_and
        (not64 (
          sub64 key (shl (not64 (sub64 key (shl (not64 (sub64 key (shl (not64 key) 21))) 21))) 21)))
        mask

-- The two rounds that undo a shift by s of at least 22 places, and the four for a shift by 14.
invert_shift : ℕ → ℕ → ℕ
invert_shift s key = bit_xor key (shr (bit_xor key (shr key s)) s)

invert_shift_14 : ℕ → ℕ
invert_shift_14 key =
    bit_xor key (shr (bit_xor key (shr (bit_xor key (shr (bit_xor key (shr key 14)) 14)) 14)) 14)

hash_64-stages :
    (key mask : ℕ)
    → hash_64 key mask
      ≡ times_31 mask (
          xor_shift 28
            (times_21 mask (xor_shift 14 (times_265 mask (xor_shift 24 (affine mask key))))))
unfolding hash_64 times_31 times_21 times_265 affine xor_shift
hash_64-stages key mask = refl

hash_64i-stages :
    (key mask : ℕ)
    → hash_64i key mask
      ≡ invert_affine mask (
          invert_shift 24 (
            invert_265 mask
              (invert_shift_14 (invert_21 mask (invert_shift 28 (invert_31 mask key))))))
unfolding hash_64i invert_31 invert_21 invert_265 invert_affine invert_shift invert_shift_14
hash_64i-stages key mask = refl

module _ (k : ℕ) (small : k ≤ 64) where
  masked-lt : (a : ℕ) → bit_and a (2 ^ k - 1) < 2 ^ k
  masked-lt a = rw (bit_and-mask k a) (low_bits-lt a k)

  invert-affine : (x : ℕ) → x < 2 ^ k → invert_affine (2 ^ k - 1) (affine (2 ^ k - 1) x) ≡ x
  unfolding invert_affine affine
  invert-affine x lt = bit_and-mask k _ ∙ undo_affine k small x _ lt (bit_and-mask k _)

  invert-times_265 : (x : ℕ) → x < 2 ^ k → invert_265 (2 ^ k - 1) (times_265 (2 ^ k - 1) x) ≡ x
  unfolding invert_265 times_265
  invert-times_265 x lt = bit_and-mask k _ ∙ undo_times_265 k small x _ lt (bit_and-mask k _)

  invert-times_21 : (x : ℕ) → x < 2 ^ k → invert_21 (2 ^ k - 1) (times_21 (2 ^ k - 1) x) ≡ x
  unfolding invert_21 times_21
  invert-times_21 x lt = bit_and-mask k _ ∙ undo_times_21 k small x _ lt (bit_and-mask k _)

  invert-times_31 : (x : ℕ) → x < 2 ^ k → invert_31 (2 ^ k - 1) (times_31 (2 ^ k - 1) x) ≡ x
  unfolding invert_31 times_31
  invert-times_31 x lt = bit_and-mask k _ ∙ undo_times_31 k small x _ lt (bit_and-mask k _)

  shifted-lt : (s x : ℕ) → x < 2 ^ k → xor_shift s x < 2 ^ k
  unfolding xor_shift
  shifted-lt s x lt = xor_shift-lt k small s x lt

  invert-shift_28 : (x : ℕ) → x < 2 ^ k → invert_shift 28 (xor_shift 28 x) ≡ x
  unfolding invert_shift xor_shift
  invert-shift_28 x lt = undo_shift_28 x _ (word_of k small x lt) refl

  invert-shift_24 : (x : ℕ) → x < 2 ^ k → invert_shift 24 (xor_shift 24 x) ≡ x
  unfolding invert_shift xor_shift
  invert-shift_24 x lt = undo_shift_24 x _ (word_of k small x lt) refl

  invert-shift_14 : (x : ℕ) → x < 2 ^ k → invert_shift_14 (xor_shift 14 x) ≡ x
  unfolding invert_shift_14 xor_shift
  invert-shift_14 x lt = undo_shift_14 x _ (word_of k small x lt) refl

  affine-lt : (x : ℕ) → affine (2 ^ k - 1) x < 2 ^ k
  unfolding affine
  affine-lt x = masked-lt _

  times_265-lt : (x : ℕ) → times_265 (2 ^ k - 1) x < 2 ^ k
  unfolding times_265
  times_265-lt x = masked-lt _

  times_21-lt : (x : ℕ) → times_21 (2 ^ k - 1) x < 2 ^ k
  unfolding times_21
  times_21-lt x = masked-lt _

  -- For a mask of k ones, k at most 64, hash_64i takes each number of k bits back from its hash.
  pub hash_64i-hash_64 : (x : ℕ) → x < 2 ^ k → hash_64i (hash_64 x (2 ^ k - 1)) (2 ^ k - 1) ≡ x
  hash_64i-hash_64 x lt =
      rw
        (
          hash_64-stages x (2 ^ k - 1),
          hash_64i-stages _ (2 ^ k - 1),
          invert-times_31 k₆ (shifted-lt 28 k₅ (times_21-lt k₄)),
          invert-shift_28 k₅ (times_21-lt k₄),
          invert-times_21 k₄ (shifted-lt 14 k₃ (times_265-lt k₂)),
          invert-shift_14 k₃ (times_265-lt k₂),
          invert-times_265 k₂ (shifted-lt 24 k₁ (affine-lt x)),
          invert-shift_24 k₁ (affine-lt x),
        )
        (invert-affine x lt)
    where
      k₁ : ℕ
      k₁ = affine (2 ^ k - 1) x

      k₂ : ℕ
      k₂ = xor_shift 24 k₁

      k₃ : ℕ
      k₃ = times_265 (2 ^ k - 1) k₂

      k₄ : ℕ
      k₄ = xor_shift 14 k₃

      k₅ : ℕ
      k₅ = times_21 (2 ^ k - 1) k₄

      k₆ : ℕ
      k₆ = xor_shift 28 k₅

  pub hash_64-lt : (x : ℕ) → hash_64 x (2 ^ k - 1) < 2 ^ k
  unfolding times_31
  hash_64-lt x = rw (hash_64-stages x (2 ^ k - 1)) (masked-lt _)

  -- Two numbers of k bits with the same hash are the same.
  pub hash_64_injective :
      (x y : ℕ) → x < 2 ^ k → y < 2 ^ k → hash_64 x (2 ^ k - 1) ≡ hash_64 y (2 ^ k - 1) → x ≡ y
  hash_64_injective x y p q e =
      sym (hash_64i-hash_64 x p) ∙ ap (λ (t : ℕ). hash_64i t (2 ^ k - 1)) e ∙ hash_64i-hash_64 y q
