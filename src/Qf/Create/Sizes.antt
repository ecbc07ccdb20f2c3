-- ===== src/Qf/Create/Sizes.antt =====
-- The sizes that qf_init (src/gqf.c) gives a new filter.
use ski_rental_adaptive_qf.Prelude.{
  ℕ, zero, suc, ◌+◌, ◌-◌, ◌*◌, ◌/◌, ◌%◌, ◌^◌, ◌≤◌, ◌<◌, ◌≡◌, refl, sym, ap, ◌∙◌, inl, inr, true,
  false, none, some, arith, ltb, leb, ◌==◌, lt→ltb, ==_iff, Bool-cases, done, >>=-done, assert-true,
  if-false,
}
use ski_rental_adaptive_qf.Qf.{HashMode, Qf}
use ski_rental_adaptive_qf.Qf.Create.{
  Blocks, remainder_bits, count_quotient_bits, block_bytes, blocks_for, init_sizes, initial,
  qf_init, qf_malloc,
}
use ski_rental_adaptive_qf.Word.{Word, count_ones, bit_val, popcnt}
use ski_rental_adaptive_qf.Row.{bit}
use ski_rental_adaptive_qf.Arith.{pow_pos, pow-add}
use native.Mathlib.Nat.{pow-suc, mod-eq_of_lt, pow-le-pow_right}

-- The ones of a word, from its lowest bit up.
count_ones-low :
    (w : Word) (n : ℕ) → count_ones w (suc n) ≡ bit_val (w 0) + count_ones (λ i. w (suc i)) n
unfolding count_ones
count_ones-low w zero = omega arith
count_ones-low w (suc n) = omega (arith, count_ones-low w n)

no_ones : (m n : ℕ) → n < 2 ^ m → count_ones (bit n) m ≡ 0 → n ≡ 0
unfolding bit
no_ones zero n h c = omega arith
no_ones (suc m) n h c =
    let low = count_ones-low (bit n) m in
    let half : n / 2 < 2 ^ m = omega (arith, pow-suc 2 m) in
    let rest : count_ones (bit (n / 2)) m ≡ 0 = omega (arith, low) in
    let ih = no_ones m (n / 2) half rest in ground arith

-- A number with a single one is a power of 2.
single_one : (m n : ℕ) → n < 2 ^ m → count_ones (bit n) m ≡ 1 → (k : ℕ) × (k < m) × (n ≡ 2 ^ k)
unfolding bit count_ones
single_one zero n h c = absurd (ground arith)
single_one (suc m) n h c =
    let low = count_ones-low (bit n) m in
    let half : n / 2 < 2 ^ m = omega (arith, pow-suc 2 m) in
    elim (Bool-cases ((n % 2) == 1)) [
      | inl odd ↦ let ih = no_ones m (n / 2) half (ground arith) in (0, omega arith, ground arith)
      | inr even ↦
          let (k, lt, e) = single_one m (n / 2) half (ground arith) in
          (suc k, omega arith, grind (arith, pow-suc 2 k))
    ]

half_pow : (k : ℕ) → 2 ^ suc k / 2 ≡ 2 ^ k
half_pow k = omega (arith, pow-suc 2 k)

remainder_bits-pow : (bits k : ℕ) → remainder_bits bits (2 ^ k) ≡ bits - k
unfolding remainder_bits
remainder_bits-pow zero k = omega arith
remainder_bits-pow (suc bits) zero = omega arith
remainder_bits-pow (suc bits) (suc k) =
    let big : ltb 1 (2 ^ suc k) ≡ true =
      lt→ltb 1 (2 ^ suc k) (omega (arith, pow-suc 2 k, pow_pos k)) in
    rw (big, half_pow k) (remainder_bits-pow bits k ∙ omega arith)

count_quotient_bits-pow :
    (fuel k q : ℕ) → k < fuel → count_quotient_bits fuel (2 ^ k) q ≡ done (q + k)
unfolding count_quotient_bits
count_quotient_bits-pow zero k q h = absurd (omega arith)
count_quotient_bits-pow (suc fuel) zero q h = ap done (omega arith)
count_quotient_bits-pow (suc fuel) (suc k) q h =
    let big : ltb 1 (2 ^ suc k) ≡ true =
      lt→ltb 1 (2 ^ suc k) (omega (arith, pow-suc 2 k, pow_pos k)) in
    rw (big, half_pow k, count_quotient_bits)
      (count_quotient_bits-pow fuel k (q + 1) (omega arith) ∙ ap done (omega arith))

no_ones_zero : (m : ℕ) → count_ones (bit 0) m ≡ 0
unfolding bit count_ones
no_ones_zero zero = refl
no_ones_zero (suc m) = omega (arith, count_ones-low (bit 0) m, no_ones_zero m)

one_pow : (m k : ℕ) → k < m → count_ones (bit (2 ^ k)) m ≡ 1
unfolding bit
one_pow zero k h = absurd (omega arith)
one_pow (suc m) zero h = omega (arith, count_ones-low (bit 1) m, no_ones_zero m)
one_pow (suc m) (suc k) h =
    let low = count_ones-low (bit (2 ^ suc k)) m in
    let even : ((2 ^ suc k % 2) == 1) ≡ false = ground (arith, pow-suc 2 k) in
    low ∙ rw (even, half_pow k) (omega (arith, one_pow m k (omega arith)))

ltb_irrefl : (n : ℕ) → ltb n n ≡ false
ltb_irrefl n = ground arith

blocks_for_cover : (x : ℕ) → (x ≤ 64 * blocks_for x) × (64 * blocks_for x < x + 64)
blocks_for_cover x = (omega arith, omega arith)

module _ (extra : ℕ → ℕ) (metadata_bytes : ℕ) where
  init_sizes-pow :
      (k key_bits value_bits : ℕ)
      → k < 64
      → k + 2 ≤ key_bits
      → init_sizes extra metadata_bytes (2 ^ k) key_bits value_bits
        ≡ done (
          key_bits - k,
          metadata_bytes
              + blocks_for (2 ^ k + extra (2 ^ k))
                * (block_bytes + 64 * (key_bits - k + value_bits) / 8),
        )
  unfolding init_sizes popcnt
  init_sizes-pow k key_bits value_bits small enough =
      let single : (popcnt (bit (2 ^ k)) == 1) ≡ true = (==_iff _ 1).1 (one_pow 64 k small) in
      let bits = remainder_bits-pow key_bits k in
      let two : leb 2 (key_bits - k) ≡ true = ground arith in
      let more : ltb 1 (key_bits - k + value_bits) ≡ true = ground arith in
      assert-true (popcnt (bit (2 ^ k)) == 1) single (
        rw bits (
          assert-true (leb 2 (key_bits - k)) two
            (assert-true (ltb 1 (key_bits - k + value_bits)) more refl)))

  -- qf_malloc with a power of two slots below 2 ^ 64 and at least two bits more in a key makes a
  -- filter: the quotient and the remainder share the bits of a key, there is a bucket for each
  -- quotient, all slots lie in the blocks, which are no more than needed, the range of hashes is that
  -- of the keys, and the counters are 0.
  pub qf_malloc-sizes :
      (k key_bits value_bits : ℕ) (hash : HashMode) (seed : ℕ) (memory : Blocks)
      → k < 64
      → k + 2 ≤ key_bits
      → key_bits < 128
      → (qf : Qf) × (qf_malloc extra metadata_bytes (2 ^ k) key_bits value_bits hash seed memory
          ≡ done (some qf))
        × (qf.quotient_bits ≡ k)
        × (qf.quotient_bits + qf.key_remainder_bits ≡ key_bits)
        × (qf.bits_per_slot ≡ qf.key_remainder_bits + value_bits)
        × (qf.nslots ≤ qf.xnslots)
        × (qf.xnslots ≤ 64 * qf.nblocks)
        × (64 * qf.nblocks < qf.xnslots + 64)
        × (qf.range ≡ 2 ^ key_bits)
        × (qf.nelts + qf.ndistinct_elts + qf.noccupied_slots ≡ 0)
  unfolding qf_malloc qf_init
  qf_malloc-sizes k key_bits value_bits hash seed memory small enough wide =
      let sizes = init_sizes-pow k key_bits value_bits small enough in
      let bits : count_quotient_bits 64 (2 ^ k) 0 ≡ done k =
        count_quotient_bits-pow 64 k 0 small ∙ ap done (omega arith) in
      let bytes : ℕ =
        metadata_bytes
        + blocks_for (2 ^ k + extra (2 ^ k))
          * (block_bytes + 64 * (key_bits - k + value_bits) / 8) in
      let enough_bytes : ltb bytes bytes ≡ false = ltb_irrefl bytes in
      let same : (bytes == bytes) ≡ true = (==_iff bytes bytes).1 refl in
      let cover = blocks_for_cover (2 ^ k + extra (2 ^ k)) in
      let sum : k + (key_bits - k) ≡ key_bits = omega arith in
      let whole : 2 ^ k * 2 ^ (key_bits - k) ≡ 2 ^ key_bits =
        sym (pow-add k (key_bits - k)) ∙ ap (λ (n : ℕ). 2 ^ n) sum in
      let below : 2 ^ key_bits < 2 ^ 128 = omega (
        arith,
        pow-suc 2 key_bits,
        pow_pos key_bits,
        pow-le-pow_right {n = 2} (omega arith) {i = suc key_bits} {j = 128} (omega arith),
      ) in
      let first : qf_init extra metadata_bytes (2 ^ k) key_bits value_bits hash seed none 0
          ≡ done (bytes, none) =
        >>=-done (init_sizes extra metadata_bytes (2 ^ k) key_bits value_bits) _ sizes refl in
      let second : qf_init extra metadata_bytes (2 ^ k) key_bits value_bits hash seed (some memory)
            bytes
          ≡ done (
            bytes,
            some (
                initial extra metadata_bytes (2 ^ k) key_bits value_bits hash seed memory
                  (key_bits - k) k),
          ) =
        >>=-done (init_sizes extra metadata_bytes (2 ^ k) key_bits value_bits) _ sizes (
          if-false (ltb bytes bytes) _ enough_bytes
            (>>=-done (count_quotient_bits 64 (2 ^ k) 0) _ bits refl)) in
      (
        initial extra metadata_bytes (2 ^ k) key_bits value_bits hash seed memory (key_bits - k) k,
        >>=-done (qf_init extra metadata_bytes (2 ^ k) key_bits value_bits hash seed none 0) _ first
            (>>=-done
              (qf_init extra metadata_bytes (2 ^ k) key_bits value_bits hash seed (some memory)
                bytes)
              _ second (rw same refl)),
        refl,
        sum,
        refl,
        omega arith,
        cover.0,
        cover.1,
        rw whole (mod-eq_of_lt below),
        refl,
      )
