-- ===== src/Hash/Congruence.antt =====
-- Numbers that agree modulo m, for the arithmetic of src/hashutil.c under a mask.
use ski_rental_adaptive_qf.Prelude.{
  ℕ, zero, suc, ◌+◌, ◌-◌, ◌*◌, ◌/◌, ◌%◌, ◌^◌, ◌≤◌, ◌<◌, ◌≡◌, refl, sym, ap, arith, ◌∙◌,
}
use ski_rental_adaptive_qf.Arith.{pow-add}
use native.Mathlib.Nat.{add-mod, add-mul-mod_self_right, mul_assoc}

module _ (m : ℕ) where
  abbrev pub Cong : ℕ → ℕ → Type 0
  Cong a b = a % m ≡ b % m

  pub Cong-add : (a b c d : ℕ) → Cong a b → Cong c d → Cong (a + c) (b + d)
  Cong-add a b c d p q =
      add-mod a c m
      ∙ ap (λ (t : ℕ). (t + c % m) % m) p
      ∙ ap (λ (t : ℕ). (b % m + t) % m) q
      ∙ sym (add-mod b d m)

  pub Cong-add_mul : (a n : ℕ) → Cong (a + n * m) a
  Cong-add_mul a n = add-mul-mod_self_right a n m

  -- Both sides n times.
  pub Cong-mul : (n a b : ℕ) → Cong a b → Cong (n * a) (n * b)
  Cong-mul zero a b p = ap (λ (t : ℕ). t % m) {x = 0 * a} {y = 0 * b} (omega arith)
  Cong-mul (suc n) a b p =
      let e : (x : ℕ) → suc n * x ≡ n * x + x = λ x. grind arith in
      rw (e a, e b) (Cong-add (n * a) (n * b) a b (Cong-mul n a b p) p)

  -- The multiple of m that c asks for, added on both sides.
  pub Cong-cancel : (c a b : ℕ) → 0 < m → Cong (a + c) (b + c) → Cong a b
  Cong-cancel c a b pos p =
      sym (Cong-add_mul a c)
      ∙ ap (λ (t : ℕ). t % m) (shape a)
      ∙ Cong-add (a + c) (b + c) (c * (m - 1)) (c * (m - 1)) p refl
      ∙ sym (ap (λ (t : ℕ). t % m) (shape b))
      ∙ Cong-add_mul b c
    where
      shape : (x : ℕ) → x + c * m ≡ x + c + c * (m - 1)
      shape x = omega (arith, ap (λ (t : ℕ). c * t) {x = m} {y = m - 1 + 1} (omega arith))

-- What agrees modulo 2 ^ 64 agrees modulo a smaller power of two.
pub Cong-word : (k a b : ℕ) → k ≤ 64 → Cong (2 ^ 64) a b → Cong (2 ^ k) a b
Cong-word k a b h p = reduce a ∙ ap (λ (t : ℕ). t % 2 ^ k) p ∙ sym (reduce b)
  where
    e : 2 ^ (64 - k) * 2 ^ k ≡ 2 ^ 64
    e = sym (pow-add (64 - k) k) ∙ ap (λ (t : ℕ). 2 ^ t) {x = 64 - k + k} {y = 64} (omega arith)

    split : (x : ℕ) → x ≡ x % 2 ^ 64 + x / 2 ^ 64 * 2 ^ (64 - k) * 2 ^ k
    split x =
        omega
          (arith, ap (λ (t : ℕ). x / 2 ^ 64 * t) e, mul_assoc (x / 2 ^ 64) (2 ^ (64 - k)) (2 ^ k))

    reduce : (x : ℕ) → x % 2 ^ k ≡ x % 2 ^ 64 % 2 ^ k
    reduce x =
        ap (λ (t : ℕ). t % 2 ^ k) (split x)
        ∙ Cong-add_mul (2 ^ k) (x % 2 ^ 64) (x / 2 ^ 64 * 2 ^ (64 - k))
