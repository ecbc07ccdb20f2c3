-- ===== src/Hash/Inverse.antt =====
-- hash_64i of src/hashutil.c inverts hash_64, stage by stage from the last one.
pub mod Stages
use ski_rental_adaptive_qf.Prelude.{
  ℕ, ◌+◌, ◌-◌, ◌*◌, ◌/◌, ◌%◌, ◌^◌, ◌≤◌, ◌<◌, bit_and, bit_xor, ◌≡◌, refl, sym, ap, arith, ◌∙◌,
}
use ski_rental_adaptive_qf.Hash.{add64, sub64, mul64, not64, shl, shr, low_bits, hash_64, hash_64i}
use ski_rental_adaptive_qf.Hash.Xor.{
  bit_xor-zero, bit_xor-cancel, shr-bit_xor, bit_xor-lt, bit_and-mask,
}
use ski_rental_adaptive_qf.Hash.Congruence.{Cong, Cong-add, Cong-mul, Cong-cancel, Cong-word}
use ski_rental_adaptive_qf.Arith.{pow_pos, low_bits-lt, shr-shr}
use native.Mathlib.Nat.{mod-mod, mod-eq_of_lt, div-eq_of_lt, div-le_self, pow-le-pow_right}

-- One more round of undoing `key ^ key >> s`: the stray copy of x moves s places further down.
unshift :
    (s m x : ℕ)
    → bit_xor (bit_xor x (shr x s)) (shr (bit_xor x (shr x m)) s) ≡ bit_xor x (shr x (m + s))
unshift s m x =
    ap (λ (t : ℕ). bit_xor (bit_xor x (shr x s)) t)
      (shr-bit_xor s x (shr x m) ∙ ap (λ (t : ℕ). bit_xor (shr x s) t) (shr-shr x m s))
    ∙ bit_xor-cancel x (shr x s) (shr x (m + s))

-- Beyond bit 63 there is nothing left.
shifted_out : (m x : ℕ) → 64 ≤ m → x < 2 ^ 64 → bit_xor x (shr x m) ≡ x
shifted_out m x h lt =
    let e : shr x m ≡ 0 = div-eq_of_lt (omega (arith, pow-le-pow_right {n = 2} (omega arith) h)) in
    rw e (bit_xor-zero x)

pub undo_shift_28 :
    (x y : ℕ)
    → x < 2 ^ 64
    → y ≡ bit_xor x (shr x 28)
    → bit_xor y (shr (bit_xor y (shr y 28)) 28) ≡ x
undo_shift_28 x y lt e =
    rw (e, unshift 28 28 x, unshift 28 56 x) (shifted_out 84 x (omega arith) lt)

pub undo_shift_24 :
    (x y : ℕ)
    → x < 2 ^ 64
    → y ≡ bit_xor x (shr x 24)
    → bit_xor y (shr (bit_xor y (shr y 24)) 24) ≡ x
undo_shift_24 x y lt e =
    rw (e, unshift 24 24 x, unshift 24 48 x) (shifted_out 72 x (omega arith) lt)

pub undo_shift_14 :
    (x y : ℕ)
    → x < 2 ^ 64
    → y ≡ bit_xor x (shr x 14)
    → bit_xor y (shr (bit_xor y (shr (bit_xor y (shr (bit_xor y (shr y 14)) 14)) 14)) 14) ≡ x
undo_shift_14 x y lt e =
    rw (e, unshift 14 14 x, unshift 14 28 x, unshift 14 42 x, unshift 14 56 x)
      (shifted_out 70 x (omega arith) lt)

module _ (k : ℕ) (small : k ≤ 64) where
  pub word_of : (x : ℕ) → x < 2 ^ k → x < 2 ^ 64
  word_of x lt = omega (arith, pow-le-pow_right {n = 2} (omega arith) small)

  -- A stage that multiplies by c under the mask is undone by one that multiplies by i.
  undo_times :
      (c i x f r : ℕ)
      → x < 2 ^ k
      → Cong (2 ^ 64) f (c * x)
      → Cong (2 ^ 64) r (i * low_bits f k)
      → Cong (2 ^ 64) (i * (c * x)) x
      → low_bits r k ≡ x
  undo_times c i x f r lt p q s =
      Cong-word k r (i * low_bits f k) small q
      ∙ Cong-mul (2 ^ k) i (low_bits f k) (c * x)
          (mod-mod f (2 ^ k) ∙ Cong-word k f (c * x) small p)
      ∙ Cong-word k (i * (c * x)) x small s
      ∙ mod-eq_of_lt lt

  pub undo_times_31 :
      (x h : ℕ)
      → x < 2 ^ k
      → h ≡ low_bits (add64 x (shl x 31)) k
      → low_bits (sub64 h (shl (sub64 h (shl h 31)) 31)) k ≡ x
  undo_times_31 x h lt e = rw e (
      undo_times (2 ^ 31 + 1) (2 ^ 64 + 2 ^ 62 + 1 - 2 ^ 31) x (add64 x (shl x 31)) _ lt
        (omega arith) (omega arith) (omega arith))

  pub undo_times_21 :
      (x h : ℕ)
      → x < 2 ^ k
      → h ≡ low_bits (add64 (add64 x (shl x 2)) (shl x 4)) k
      → low_bits (mul64 h 14933078535860113213) k ≡ x
  undo_times_21 x h lt e = rw e (
      undo_times 21 14933078535860113213 x (add64 (add64 x (shl x 2)) (shl x 4)) _ lt (omega arith)
        (omega arith) (omega arith))

  pub undo_times_265 :
      (x h : ℕ)
      → x < 2 ^ k
      → h ≡ low_bits (add64 (add64 x (shl x 3)) (shl x 8)) k
      → low_bits (mul64 h 15244667743933553977) k ≡ x
  undo_times_265 x h lt e = rw e (
      undo_times 265 15244667743933553977 x (add64 (add64 x (shl x 3)) (shl x 8)) _ lt (omega arith)
        (omega arith) (omega arith))

  -- The affine first stage: each round of the inverse makes 21 more bits right.
  pub undo_affine :
      (x y : ℕ)
      → x < 2 ^ k
      → y ≡ low_bits (add64 (not64 x) (shl x 21)) k
      → low_bits
          (not64 (sub64 y (shl (not64 (sub64 y (shl (not64 (sub64 y (shl (not64 y) 21))) 21))) 21)))
          k
        ≡ x
  undo_affine x y lt e =
      Cong-cancel (2 ^ k) (2 ^ 21 * c * x) r x (pow_pos k) (
        Cong-add (2 ^ k) r r (2 ^ 21 * c * x) (c * (y + x + 1)) refl (sym scaled)
        ∙ Cong-word k (r + c * (y + x + 1)) (x + 2 ^ 21 * c * x) small (omega (arith, y_word)))
      ∙ mod-eq_of_lt lt
    where
      c : ℕ
      c = 1 + 2 ^ 21 + 2 ^ 42 + 2 ^ 63

      r : ℕ
      r = not64 (sub64 y (shl (not64 (sub64 y (shl (not64 (sub64 y (shl (not64 y) 21))) 21))) 21))

      y_word : y < 2 ^ 64
      y_word = rw e (word_of _ (low_bits-lt _ k))

      f : ℕ
      f = add64 (not64 x) (shl x 21)

      f_lem : Cong (2 ^ 64) (f + (x + 1)) (2 ^ 21 * x)
      f_lem = omega (arith, word_of x lt)

      y_lem : Cong (2 ^ k) (y + x + 1) (2 ^ 21 * x)
      y_lem =
          ap (λ (t : ℕ). t % 2 ^ k) {x = y + x + 1} {y = y + (x + 1)} (omega arith)
          ∙ Cong-add (2 ^ k) y f (x + 1) (x + 1) (ap (λ (t : ℕ). t % 2 ^ k) e ∙ mod-mod f (2 ^ k))
              refl
          ∙ Cong-word k (f + (x + 1)) (2 ^ 21 * x) small f_lem

      scaled : Cong (2 ^ k) (c * (y + x + 1)) (2 ^ 21 * c * x)
      scaled =
          Cong-mul (2 ^ k) c (y + x + 1) (2 ^ 21 * x) y_lem
          ∙ ap (λ (t : ℕ). t % 2 ^ k) {x = c * (2 ^ 21 * x)} {y = 2 ^ 21 * c * x} (omega arith)

  pub xor_shift-lt : (s x : ℕ) → x < 2 ^ k → bit_xor x (shr x s) < 2 ^ k
  xor_shift-lt s x lt = bit_xor-lt k x (shr x s) lt (omega (arith, div-le_self x (2 ^ s)))
