-- ===== src/Arith.antt =====
-- Powers of two, the low bits of a number and the or of disjoint bits: the arithmetic behind the
-- shifts and masks of fingerprints.
use ski_rental_adaptive_qf.Prelude.{
  ℕ, zero, suc, ◌+◌, ◌-◌, ◌*◌, ◌/◌, ◌%◌, ◌^◌, ◌≤◌, ◌<◌, bit_or, ◌≡◌, refl, ap, arith,
}
use ski_rental_adaptive_qf.Hash.{shr, low_bits}
use Prim.Native.Nat.{max, digits, bit_or-bitwise}
use native.Mathlib.Nat.{pow-suc, div-add-mod, div-div-eq-div-mul, mod-lt, add-mul, pow-le-pow_right}

abbrev or_digits : ℕ → ℕ → ℕ → ℕ
or_digits n a b = digits (λ b. b) max n a b

or_digits_fuel : (n m a b : ℕ) → a ≤ n → a ≤ m → or_digits n a b ≡ or_digits m a b
or_digits_fuel zero zero a b p q = refl
or_digits_fuel zero (suc m) zero b p q = refl
or_digits_fuel zero (suc m) (suc a) b p q = absurd (omega arith)
or_digits_fuel (suc n) zero zero b p q = refl
or_digits_fuel (suc n) zero (suc a) b p q = absurd (omega arith)
or_digits_fuel (suc n) (suc m) zero b p q = refl
or_digits_fuel (suc n) (suc m) (suc a) b p q =
    omega (arith, or_digits_fuel n m (suc a / 2) (b / 2) (omega arith) (omega arith))

pub zero-bit_or : (b : ℕ) → bit_or 0 b ≡ b
zero-bit_or b = bit_or-bitwise 0 b

-- The law for the lowest digit.
bit_or_step : (a b : ℕ) → bit_or a b ≡ bit_or (a / 2) (b / 2) * 2 + max (a % 2) (b % 2)
bit_or_step zero b = omega (arith, zero-bit_or b, zero-bit_or (b / 2))
bit_or_step (suc a) b = omega (
  arith,
  bit_or-bitwise (suc a) b,
  bit_or-bitwise (suc a / 2) (b / 2),
  or_digits_fuel a (suc a / 2) (suc a / 2) (b / 2) (omega arith) (omega arith),
)

-- The or of numbers with no bit in common is their sum.
pub bit_or_disjoint : (k x y : ℕ) → x < 2 ^ k → bit_or x (y * 2 ^ k) ≡ x + y * 2 ^ k
bit_or_disjoint zero x y h =
    let e : x ≡ 0 = omega arith in rw e (omega (arith, zero-bit_or (y * 2 ^ 0)))
bit_or_disjoint (suc k) x y h =
    let e : y * 2 ^ suc k ≡ y * 2 ^ k * 2 = omega (arith, ap (λ (t : ℕ). y * t) (pow-suc 2 k)) in
    let half : y * 2 ^ k * 2 / 2 ≡ y * 2 ^ k = omega arith in
    let ih = bit_or_disjoint k (x / 2) y (omega (arith, pow-suc 2 k)) in
    let s = bit_or_step x (y * 2 ^ k * 2) in rw e (omega (arith, rw half at s, ih))

pub pow_pos : (n : ℕ) → 0 < 2 ^ n
pow_pos zero = omega arith
pow_pos (suc n) = omega (arith, pow-suc 2 n, pow_pos n)

pub pow-add : (a b : ℕ) → 2 ^ (a + b) ≡ 2 ^ a * 2 ^ b
pow-add a zero = let e : a + 0 ≡ a = omega arith in rw e (omega arith)
pow-add a (suc b) =
    let e : a + suc b ≡ suc (a + b) = omega arith in
    rw e (
      omega (
        arith,
        pow-suc 2 (a + b),
        pow-suc 2 b,
        pow-add a b,
        ap (λ (t : ℕ). t * 2) (pow-add a b),
        ap (λ (t : ℕ). 2 ^ a * t) (pow-suc 2 b),
      ))

mod_mul : (x p r : ℕ) → x % (p * r) ≡ x % p + p * (x / p % r)
mod_mul x p r = omega (
  arith,
  div-add-mod x p,
  ap (λ (t : ℕ). p * t) (div-add-mod (x / p) r),
  div-add-mod x (p * r),
  ap (λ (t : ℕ). p * r * t) (div-div-eq-div-mul x p r),
)

-- The low a + b bits are the low a bits and the next b bits.
pub low_bits-add : (x a b : ℕ) → low_bits x (a + b) ≡ low_bits x a + 2 ^ a * low_bits (x / 2 ^ a) b
low_bits-add x a b = rw (pow-add a b) (mod_mul x (2 ^ a) (2 ^ b))

pub low_bits-lt : (x a : ℕ) → low_bits x a < 2 ^ a
low_bits-lt x a = mod-lt x (pow_pos a)

-- A shift by b after a shift by a.
pub shr-shr : (x a b : ℕ) → shr (shr x a) b ≡ shr x (a + b)
shr-shr x a b = rw (pow-add a b) (div-div-eq-div-mul x (2 ^ a) (2 ^ b))

bit_or_comm_upto : (n a b : ℕ) → a ≤ n → b ≤ n → bit_or a b ≡ bit_or b a
bit_or_comm_upto zero a b p q =
    let x : a ≡ 0 = omega arith in let y : b ≡ 0 = omega arith in rw (x, y) refl
bit_or_comm_upto (suc n) a b p q = omega (
  arith,
  bit_or_comm_upto n (a / 2) (b / 2) (omega arith) (omega arith),
  bit_or_step a b,
  bit_or_step b a,
)

pub bit_or_comm : (a b : ℕ) → bit_or a b ≡ bit_or b a
bit_or_comm a b = bit_or_comm_upto (a + b) a b (omega arith) (omega arith)

pub bit_or-lt : (k a b : ℕ) → a < 2 ^ k → b < 2 ^ k → bit_or a b < 2 ^ k
bit_or-lt zero a b p q =
    let x : a ≡ 0 = omega arith in let y : b ≡ 0 = omega arith in rw (x, y) (omega arith)
bit_or-lt (suc k) a b p q = omega (
  arith,
  pow-suc 2 k,
  bit_or_step a b,
  bit_or-lt k (a / 2) (b / 2) (omega (arith, pow-suc 2 k)) (omega (arith, pow-suc 2 k)),
)

pub below_pow : (a s : ℕ) → a ≤ s → 2 ^ a ≤ 2 ^ s
below_pow a s le = pow-le-pow_right {n = 2} (omega arith) {i = a} {j = s} le

pub times_pow-lt : (v a s : ℕ) → v < 2 ^ a → v * 2 ^ s < 2 ^ (a + s)
times_pow-lt v a s lt = omega (
  arith,
  pow-add a s,
  add-mul (v + 1) (2 ^ a - (v + 1)) (2 ^ s),
  add-mul v 1 (2 ^ s),
  ap (λ (t : ℕ). t * 2 ^ s) {x = v + 1 + (2 ^ a - (v + 1))} {y = 2 ^ a} (omega arith),
  pow_pos s,
)
