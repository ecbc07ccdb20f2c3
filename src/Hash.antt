-- ===== src/Hash.antt =====
-- The hash functions of src/hashutil.c on 64-bit words: MurmurHash64A, hash_64 and hash_64i.
pub mod Xor
pub mod Congruence
pub mod Inverse
use ski_rental_adaptive_qf.Prelude.{
  ℕ, suc, ◌+◌, ◌-◌, ◌*◌, ◌/◌, ◌%◌, ◌^◌, List, [], ◌∷◌, bit_and, bit_xor, ◌≡◌, refl,
}

abbrev pub word_mod : ℕ
word_mod = 2 ^ 64

-- uint64_t arithmetic: `a + b`, `a - b`, `a * b`, `~a`, `a << k` and `a >> k`.
abbrev pub add64 : ℕ → ℕ → ℕ
add64 a b = (a + b) % 2 ^ 64

abbrev pub sub64 : ℕ → ℕ → ℕ
sub64 a b = (a + 2 ^ 64 - b) % 2 ^ 64

abbrev pub mul64 : ℕ → ℕ → ℕ
mul64 a b = a * b % 2 ^ 64

abbrev pub not64 : ℕ → ℕ
not64 a = 2 ^ 64 - 1 - a

abbrev pub shl : ℕ → ℕ → ℕ
shl a k = a * 2 ^ k % 2 ^ 64

abbrev pub shr : ℕ → ℕ → ℕ
shr a k = a / 2 ^ k

-- `a & BITMASK(nbits)`
abbrev pub low_bits : ℕ → ℕ → ℕ
low_bits a nbits = a % 2 ^ nbits

abbrev pub murmur_m : ℕ
murmur_m = 0xc6a4a7935bd1e995

abbrev pub murmur_r : ℕ
murmur_r = 47

-- One round of the loop over the 8-byte words of the key.
unfoldable pub murmur_round : ℕ → ℕ → ℕ
murmur_round h k =
    let k₁ : ℕ = mul64 k murmur_m in
    let k₂ : ℕ = bit_xor k₁ (shr k₁ murmur_r) in
    let k₃ : ℕ = mul64 k₂ murmur_m in mul64 (bit_xor h k₃) murmur_m

unfoldable pub murmur_words : ℕ → List ℕ → ℕ
unfolding murmur_round
murmur_words h [] = h
murmur_words h (k ∷ data2) = murmur_words (murmur_round h k) data2

-- The bytes of the tail, the last one first: `case 7: h ^= data2[6] << 48;` and so on down.
unfoldable pub murmur_tail_bytes : ℕ → ℕ → List ℕ → ℕ
murmur_tail_bytes h i [] = h
murmur_tail_bytes h i (b ∷ bs) = bit_xor (murmur_tail_bytes h (suc i) bs) (shl b (8 * i))

unfoldable pub murmur_tail : ℕ → List ℕ → ℕ
unfolding murmur_tail_bytes
murmur_tail h [] = h
murmur_tail h (b ∷ bs) = mul64 (murmur_tail_bytes h 0 (b ∷ bs)) murmur_m

-- The key is given as its 8-byte words and the bytes that are left, `len` bytes in all.
unfoldable pub murmur_hash_64a : List ℕ → List ℕ → ℕ → ℕ → ℕ
unfolding murmur_words murmur_tail
murmur_hash_64a words tail len seed =
    let h₀ : ℕ = bit_xor seed (mul64 len murmur_m) in
    let h₁ : ℕ = murmur_tail (murmur_words h₀ words) tail in
    let h₂ : ℕ = bit_xor h₁ (shr h₁ murmur_r) in
    let h₃ : ℕ = mul64 h₂ murmur_m in bit_xor h₃ (shr h₃ murmur_r)

unfoldable pub hash_64 : ℕ → ℕ → ℕ
hash_64 key mask =
    let k₁ : ℕ = bit_and (add64 (not64 key) (shl key 21)) mask in
    let k₂ : ℕ = bit_xor k₁ (shr k₁ 24) in
    let k₃ : ℕ = bit_and (add64 (add64 k₂ (shl k₂ 3)) (shl k₂ 8)) mask in
    let k₄ : ℕ = bit_xor k₃ (shr k₃ 14) in
    let k₅ : ℕ = bit_and (add64 (add64 k₄ (shl k₄ 2)) (shl k₄ 4)) mask in
    let k₆ : ℕ = bit_xor k₅ (shr k₅ 28) in bit_and (add64 k₆ (shl k₆ 31)) mask

unfoldable pub hash_64i : ℕ → ℕ → ℕ
hash_64i key mask =
    let t₁ : ℕ = sub64 key (shl key 31) in
    let k₁ : ℕ = bit_and (sub64 key (shl t₁ 31)) mask in
    let t₂ : ℕ = bit_xor k₁ (shr k₁ 28) in
    let k₂ : ℕ = bit_xor k₁ (shr t₂ 28) in
    let k₃ : ℕ = bit_and (mul64 k₂ 14933078535860113213) mask in
    let t₄ : ℕ = bit_xor k₃ (shr k₃ 14) in
    let t₅ : ℕ = bit_xor k₃ (shr t₄ 14) in
    let t₆ : ℕ = bit_xor k₃ (shr t₅ 14) in
    let k₄ : ℕ = bit_xor k₃ (shr t₆ 14) in
    let k₅ : ℕ = bit_and (mul64 k₄ 15244667743933553977) mask in
    let t₇ : ℕ = bit_xor k₅ (shr k₅ 24) in
    let k₆ : ℕ = bit_xor k₅ (shr t₇ 24) in
    let t₈ : ℕ = not64 k₆ in
    let t₉ : ℕ = not64 (sub64 k₆ (shl t₈ 21)) in
    let t₁₀ : ℕ = not64 (sub64 k₆ (shl t₉ 21)) in bit_and (not64 (sub64 k₆ (shl t₁₀ 21))) mask
