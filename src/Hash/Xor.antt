-- ===== src/Hash/Xor.antt =====
-- Laws of the bitwise exclusive or and of the masks of src/hashutil.c, digit by digit.
use ski_rental_adaptive_qf.Prelude.{
  ℕ, zero, suc, ◌+◌, ◌-◌, ◌*◌, ◌/◌, ◌%◌, ◌^◌, ◌≤◌, ◌<◌, min, bit_and, bit_xor, ◌≡◌, refl, sym, ap,
  arith, ◌∙◌,
}
use ski_rental_adaptive_qf.Hash.{shr, low_bits}
use ski_rental_adaptive_qf.Arith.{pow_pos, low_bits-add, shr-shr}
use Prim.Native.Nat.{digits, bitwise, differ, bit_xor-bitwise, bit_and-bitwise}
use native.Mathlib.Nat.{pow-suc}

-- Rounds beyond the first number add nothing to the digits of an operation z, f.
more_rounds :
    (z : ℕ → ℕ) (f : ℕ → ℕ → ℕ) (rounds extra a b : ℕ)
    → a ≤ rounds
    → digits z f (rounds + extra) a b ≡ digits z f rounds a b
more_rounds z f zero zero a b le = refl
more_rounds z f zero (suc extra) zero b le =
    let e : 0 + suc extra ≡ suc extra = omega arith in rw e refl
more_rounds z f zero (suc extra) (suc a) b le = absurd (omega arith)
more_rounds z f (suc rounds) extra zero b le =
    let e : suc rounds + extra ≡ suc (rounds + extra) = omega arith in rw e refl
more_rounds z f (suc rounds) extra (suc a) b le =
    let e : suc rounds + extra ≡ suc (rounds + extra) = omega arith in
    rw e (
      ap (λ (t : ℕ). t * 2 + f (suc a % 2) (b % 2))
        (more_rounds z f rounds extra (suc a / 2) (b / 2) (omega arith)))

-- The law for the lowest digit.
lowest_digit :
    (z : ℕ → ℕ) (f : ℕ → ℕ → ℕ) (a b : ℕ)
    → bitwise z f (suc a) b ≡ bitwise z f (suc a / 2) (b / 2) * 2 + f (suc a % 2) (b % 2)
lowest_digit z f a b =
    let gap : suc a / 2 + (a - suc a / 2) ≡ a = omega arith in
    ap (λ (t : ℕ). t * 2 + f (suc a % 2) (b % 2))
      (ap (λ (n : ℕ). digits z f n (suc a / 2) (b / 2)) (sym gap)
        ∙ more_rounds z f (suc a / 2) (a - suc a / 2) (suc a / 2) (b / 2) (omega arith))

pub zero-bit_xor : (b : ℕ) → bit_xor 0 b ≡ b
zero-bit_xor b = bit_xor-bitwise 0 b

differ-mod : (x y : ℕ) → x < 2 → y < 2 → differ x y ≡ (x + y) % 2
differ-mod zero y p q = omega arith
differ-mod (suc zero) zero p q = refl
differ-mod (suc zero) (suc zero) p q = refl
differ-mod (suc zero) (suc (suc y)) p q = absurd (omega arith)
differ-mod (suc (suc x)) y p q = absurd (omega arith)

bit_xor_step : (a b : ℕ) → bit_xor a b ≡ bit_xor (a / 2) (b / 2) * 2 + (a + b) % 2
bit_xor_step zero b = omega (arith, zero-bit_xor b, zero-bit_xor (b / 2))
bit_xor_step (suc a) b = omega (
  arith,
  bit_xor-bitwise (suc a) b,
  bit_xor-bitwise (suc a / 2) (b / 2),
  lowest_digit (λ b. b) differ a b,
  differ-mod (suc a % 2) (b % 2) (omega arith) (omega arith),
)

bit_xor-half : (a b : ℕ) → bit_xor a b / 2 ≡ bit_xor (a / 2) (b / 2)
bit_xor-half a b = omega (arith, bit_xor_step a b)

bit_xor_assoc_upto :
    (n a b c : ℕ) → a ≤ n → b ≤ n → c ≤ n → bit_xor (bit_xor a b) c ≡ bit_xor a (bit_xor b c)
bit_xor_assoc_upto zero a b c p q r =
    let x : a ≡ 0 = omega arith in
    let y : b ≡ 0 = omega arith in let z : c ≡ 0 = omega arith in rw (x, y, z) refl
bit_xor_assoc_upto (suc n) a b c p q r = omega (
  arith,
  bit_xor_assoc_upto n (a / 2) (b / 2) (c / 2) (omega arith) (omega arith) (omega arith),
  bit_xor_step (bit_xor a b) c,
  bit_xor_step a (bit_xor b c),
  ap (λ (t : ℕ). bit_xor t (c / 2)) (bit_xor-half a b),
  ap (λ (t : ℕ). bit_xor (a / 2) t) (bit_xor-half b c),
  bit_xor_step a b,
  bit_xor_step b c,
)

pub bit_xor_assoc : (a b c : ℕ) → bit_xor (bit_xor a b) c ≡ bit_xor a (bit_xor b c)
bit_xor_assoc a b c = bit_xor_assoc_upto (a + b + c) a b c (omega arith) (omega arith) (omega arith)

bit_xor_self_upto : (n a : ℕ) → a ≤ n → bit_xor a a ≡ 0
bit_xor_self_upto zero a p = let x : a ≡ 0 = omega arith in rw x refl
bit_xor_self_upto (suc n) a p =
    omega (arith, bit_xor_step a a, bit_xor_self_upto n (a / 2) (omega arith))

bit_xor-zero_upto : (n a : ℕ) → a ≤ n → bit_xor a 0 ≡ a
bit_xor-zero_upto zero a p = let x : a ≡ 0 = omega arith in rw x refl
bit_xor-zero_upto (suc n) a p =
    omega (arith, bit_xor_step a 0, bit_xor-zero_upto n (a / 2) (omega arith))

pub bit_xor_self : (a : ℕ) → bit_xor a a ≡ 0
bit_xor_self a = bit_xor_self_upto a a (omega arith)

pub bit_xor-zero : (a : ℕ) → bit_xor a 0 ≡ a
bit_xor-zero a = bit_xor-zero_upto a a (omega arith)

-- What is xored in twice is gone.
pub bit_xor-cancel : (a b c : ℕ) → bit_xor (bit_xor a b) (bit_xor b c) ≡ bit_xor a c
bit_xor-cancel a b c =
    bit_xor_assoc a b (bit_xor b c)
    ∙ ap (λ (t : ℕ). bit_xor a t)
        (sym (bit_xor_assoc b b c) ∙ ap (λ (t : ℕ). bit_xor t c) (bit_xor_self b) ∙ zero-bit_xor c)

pub shr-bit_xor : (k a b : ℕ) → shr (bit_xor a b) k ≡ bit_xor (shr a k) (shr b k)
shr-bit_xor zero a b =
    let x : a / 2 ^ 0 ≡ a = omega arith in
    let y : b / 2 ^ 0 ≡ b = omega arith in
    let z : bit_xor a b / 2 ^ 0 ≡ bit_xor a b = omega arith in rw (x, y, z) refl
shr-bit_xor (suc k) a b =
    half (bit_xor a b)
    ∙ ap (λ (t : ℕ). t / 2) (shr-bit_xor k a b)
    ∙ bit_xor-half (shr a k) (shr b k)
    ∙ sym (ap (λ (t : ℕ). bit_xor t (shr b k / 2)) (half a))
    ∙ sym (ap (λ (t : ℕ). bit_xor (shr a (suc k)) t) (half b))
  where
    half : (x : ℕ) → shr x (suc k) ≡ shr x k / 2
    half x =
        omega (arith, shr-shr x k 1, ap (λ (t : ℕ). shr x t) {x = k + 1} {y = suc k} (omega arith))

pub bit_xor-lt : (k a b : ℕ) → a < 2 ^ k → b < 2 ^ k → bit_xor a b < 2 ^ k
bit_xor-lt zero a b p q =
    let x : a ≡ 0 = omega arith in let y : b ≡ 0 = omega arith in rw (x, y) (omega arith)
bit_xor-lt (suc k) a b p q = omega (
  arith,
  pow-suc 2 k,
  bit_xor_step a b,
  bit_xor-lt k (a / 2) (b / 2) (omega (arith, pow-suc 2 k)) (omega (arith, pow-suc 2 k)),
)

-- A zero on the left masks all.
none_masked : (b : ℕ) → bit_and 0 b ≡ 0
none_masked b = bit_and-bitwise 0 b

and_lowest : (a b : ℕ) → bit_and a b ≡ min (a % 2) (b % 2) + 2 * bit_and (a / 2) (b / 2)
and_lowest zero b = omega (arith, none_masked b, none_masked (b / 2))
and_lowest (suc a) b = omega (
  arith,
  lowest_digit (λ b. zero) min a b,
  bit_and-bitwise (suc a / 2) (b / 2),
  bit_and-bitwise (suc a) b,
)

bit_and-zero_upto : (n a : ℕ) → a ≤ n → bit_and a 0 ≡ 0
bit_and-zero_upto zero a p = let x : a ≡ 0 = omega arith in rw x refl
bit_and-zero_upto (suc n) a p =
    omega (arith, and_lowest a 0, bit_and-zero_upto n (a / 2) (omega arith))

-- `a & mask` for a mask of k ones.
pub bit_and-mask : (k a : ℕ) → bit_and a (2 ^ k - 1) ≡ low_bits a k
bit_and-mask zero a = omega (arith, bit_and-zero_upto a a (omega arith))
bit_and-mask (suc k) a =
    let half : (2 ^ suc k - 1) / 2 ≡ 2 ^ k - 1 = omega (arith, pow-suc 2 k, pow_pos k) in
    omega (
      arith,
      and_lowest a (2 ^ suc k - 1),
      ap (λ (t : ℕ). bit_and (a / 2) t) half,
      bit_and-mask k (a / 2),
      low_bits-add a 1 k,
      ap (λ (t : ℕ). low_bits a t) {x = 1 + k} {y = suc k} (omega arith),
      pow-suc 2 k,
      pow_pos k,
    )
