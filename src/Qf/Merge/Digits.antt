-- ===== src/Qf/Merge/Digits.antt =====
-- How get_slot_info of src/gqf.c puts a number together from the slots that hold its digits.
use ski_rental_adaptive_qf.Prelude.{
  ◌%◌, dec_lt, sym, refl, ℕ, zero, suc, ◌+◌, ◌-◌, ◌*◌, ◌^◌, ◌≤◌, ◌<◌, bit_or, ◌≡◌, ap, ◌∙◌, Bool,
  true, false, arith, Outcome, done, ◌>>=◌,
}
use ski_rental_adaptive_qf.Hash.{shl, shr, low_bits}
use ski_rental_adaptive_qf.Qf.{Qf}
use ski_rental_adaptive_qf.Qf.Bits.{get_slot}
use ski_rental_adaptive_qf.Arith.{low_bits-add, low_bits-lt, bit_or_disjoint}
use ski_rental_adaptive_qf.Qf.SlotInfo.{read_slots}
use ski_rental_adaptive_qf.Qf.Extend.Recount.{read_slots-more, read_slots-stop}
use native.Mathlib.Nat.{
  pow-le-pow_right, div-eq_of_lt, mod-eq_of_lt, mod-le, div-add-mod, mul_comm, add-mul,
}

-- One more digit above the low s bits.
or_digit :
    (v s bits : ℕ)
    → v < 2 ^ 64
    → bit_or (low_bits v s) (shl (low_bits (shr v s) bits) s) ≡ low_bits v (s + bits)
or_digit v s bits lt =
    ap (λ (t : ℕ). bit_or (low_bits v s) t) (mod-eq_of_lt fits)
    ∙ bit_or_disjoint s (low_bits v s) (low_bits (shr v s) bits) (low_bits-lt v s)
    ∙ omega (arith, low_bits-add v s bits, mul_comm (2 ^ s) (low_bits (shr v s) bits))
  where
    fits : low_bits (shr v s) bits * 2 ^ s < 2 ^ 64
    fits =
        let d : ℕ = low_bits (shr v s) bits in
        let q : ℕ = shr v s in
        let le : d ≤ q = mod-le q (2 ^ bits) in
        omega (
          arith,
          add-mul d (q - d) (2 ^ s),
          ap (λ (t : ℕ). t * 2 ^ s) {x = d + (q - d)} {y = q} (omega arith),
          mul_comm (2 ^ s) q,
          div-add-mod v (2 ^ s),
        )

-- A digit of a 64-bit number that stands at bit 64 or above is 0.
modulo_shift :
    (v s bits : ℕ)
    → v < 2 ^ 64
    → shl (low_bits (shr v s) bits) (s % 64) ≡ shl (low_bits (shr v s) bits) s
modulo_shift v s bits lt = elim (dec_lt s 64) [
  | yes low ↦ let e : s % 64 ≡ s = mod-eq_of_lt low in rw e refl
  | no high ↦
      let gone : shr v s ≡ 0 =
        div-eq_of_lt
          (omega (arith, pow-le-pow_right {n = 2} (omega arith) {i = 64} {j = s} (omega arith))) in
      let digit : low_bits (shr v s) bits ≡ 0 =
        ap (λ (t : ℕ). low_bits t bits) gone ∙ zero-mod (2 ^ bits) in
      ap (λ (t : ℕ). shl t (s % 64)) digit
      ∙ none_left (s % 64)
      ∙ sym (ap (λ (t : ℕ). shl t s) digit ∙ none_left s)
]
  where
    zero-mod : (n : ℕ) → 0 % n ≡ 0
    zero-mod n = omega (arith, mod-le 0 n)

    none_left : (n : ℕ) → shl 0 n ≡ 0
    none_left n = let e : 0 * 2 ^ n ≡ 0 = omega arith in rw e (omega arith)

module _ (test : Qf → ℕ → Bool) (qf : Qf) (base v : ℕ) where
  -- The slots from i to below end hold the digits of v that stand there if the first digit stands at
  -- base; at end the test fails.
  abbrev pub HoldsDigits : ℕ → ℕ → Type 0
  HoldsDigits i end =
      ((j : ℕ)
        → i ≤ j
        → j < end
        → (test qf j ≡ true)
          × (get_slot qf j
              ≡ done (low_bits (shr v ((j - base) * qf.bits_per_slot)) qf.bits_per_slot)))
      × (test qf end ≡ false)

  next_digit :
      (i : ℕ)
      → base ≤ i
      → (i - base) * qf.bits_per_slot + qf.bits_per_slot ≡ (i + 1 - base) * qf.bits_per_slot
  next_digit i le =
      let e : i + 1 - base ≡ i - base + 1 = omega arith in
      rw e (omega (arith, add-mul (i - base) 1 qf.bits_per_slot))

  -- A walk from slot i on, with the digits before it in hand, comes to v.
  pub read_slots-digits :
      (n fuel i end : ℕ)
      → n < fuel
      → i + n ≡ end
      → base ≤ i
      → v < 2 ^ 64
      → v < 2 ^ ((end - base) * qf.bits_per_slot)
      → HoldsDigits i end
      → read_slots test fuel qf base i (low_bits v ((i - base) * qf.bits_per_slot)) ≡ done (v, end)
  read_slots-digits n zero i end room count le small lt h = absurd (omega arith)
  read_slots-digits zero (suc fuel) i end room count le small lt h =
      let here : i ≡ end = omega arith in
      rw here (
        read_slots-stop test fuel qf base end (low_bits v ((end - base) * qf.bits_per_slot)) h.1
        ∙ ap (λ (t : ℕ). done (t, end)) (mod-eq_of_lt lt))
  read_slots-digits (suc n) (suc fuel) i end room count le small lt h =
      let (here, digit) = h.0 i (omega arith) (omega arith) in
      let s : ℕ = (i - base) * qf.bits_per_slot in
      read_slots-more test fuel qf base i (low_bits v s) here
      ∙ ap (λ o. o >>= next s) digit
      ∙ ap (λ (t : ℕ). read_slots test fuel qf base (i + 1) t)
          (ap (λ (t : ℕ). bit_or (low_bits v s) t) (modulo_shift v s qf.bits_per_slot small)
            ∙ or_digit v s qf.bits_per_slot small
            ∙ ap (λ (t : ℕ). low_bits v t) (next_digit i le))
      ∙ read_slots-digits n fuel (i + 1) end (omega arith) (omega arith) (omega arith) small lt
          (λ j p q. h.0 j (omega arith) q, h.1)
    where
      next : ℕ → ℕ → Outcome (ℕ × ℕ)
      next s slot =
          read_slots test fuel qf base (i + 1)
            (bit_or (low_bits v s) (shl slot ((i - base) * qf.bits_per_slot % 64)))
