-- ===== src/Qf/Adapt/Separate.antt =====
-- The fingerprints of adapt (src/gqf.c), before and after, against two hashes.
use ski_rental_adaptive_qf.Prelude.{
  ℕ, zero, suc, ◌+◌, ◌-◌, ◌*◌, ◌^◌, ◌≤◌, ◌<◌, bit_or, ◌≡◌, refl, sym, ap, ◌∙◌, ◌≢◌, ◌⊎◌, inl, inr,
  Bool, true, false, ◌&&◌, Option, none, some, arith, dec_lt, ℕ_discrete, ltb, leb, ◌==◌, Outcome,
  done, abort, spin, ◌>>=◌, ◌>>◌, assert,
}
use ski_rental_adaptive_qf.Hash.{shl, shr, low_bits}
use ski_rental_adaptive_qf.Qf.{Qf}
use ski_rental_adaptive_qf.Qf.Bits.{get_slot, set_slot}
use ski_rental_adaptive_qf.Qf.Shifts.{shift_remainders, shift_runends}
use ski_rental_adaptive_qf.Qf.SlotInfo.{SlotInfo, get_slot_info}
use ski_rental_adaptive_qf.Qf.Adapt.{
  value, err_no_space, Adapted, grow_extension, take_counter, extend_slot, after_round, adapt_loop,
  adapt,
}
use ski_rental_adaptive_qf.Arith.{low_bits-add, low_bits-lt, shr-shr, bit_or_disjoint}
use ski_rental_adaptive_qf.Arith.{pow-add, pow_pos}
use ski_rental_adaptive_qf.Qf.Query.{fingerprint_bits}
use native.Mathlib.Nat.{div-add-mod, mod-le, mod-eq_of_lt}

set_slot-width :
    (qf : Qf) (i v : ℕ) {qf' : Qf}
    → set_slot qf i v ≡ done qf'
    → qf'.bits_per_slot ≡ qf.bits_per_slot
unfolding set_slot
set_slot-width qf i v h = ground arith

shift_runends-width :
    (qf : Qf) (first last distance : ℕ) {qf' : Qf}
    → shift_runends qf first last distance ≡ done qf'
    → qf'.bits_per_slot ≡ qf.bits_per_slot
unfolding shift_runends
shift_runends-width qf first last distance h = ground arith

take_counter-width :
    (qf : Qf) (at chunk : ℕ) {qf' : Qf}
    → take_counter qf at chunk ≡ done qf'
    → qf'.bits_per_slot ≡ qf.bits_per_slot
unfolding take_counter
take_counter-width qf at chunk h = grind (arith, set_slot-width)

grow_extension-width :
    (qf : Qf) (at empty bucket chunk : ℕ) {qf' : Qf}
    → grow_extension qf at empty bucket chunk ≡ done qf'
    → qf'.bits_per_slot ≡ qf.bits_per_slot
unfolding grow_extension shift_remainders
grow_extension-width qf at empty bucket chunk h = grind (arith, set_slot-width, shift_runends-width)

pub extend_slot-width :
    (qf : Qf) (at bucket chunk count_len : ℕ) {qf' : Qf}
    → extend_slot qf at bucket chunk count_len ≡ done (some qf')
    → qf'.bits_per_slot ≡ qf.bits_per_slot
unfolding extend_slot
extend_slot-width qf at bucket chunk count_len h =
    grind (arith, take_counter-width, grow_extension-width)

mul_le : (c q p h : ℕ) → c ≤ q → p * q ≤ h → c * p ≤ h
mul_le c q p h u v = grind arith

-- The chunk of a hash that goes to the next extension slot, or-ed in above the fingerprint, makes
-- the longer fingerprint.
pub chunk_lem :
    (hash total width : ℕ)
    → hash < 2 ^ 64
    → bit_or (low_bits hash total) (shl (low_bits (shr hash total) width) total)
      ≡ low_bits hash (total + width)
chunk_lem hash total width h =
    let chunk : ℕ = low_bits (shr hash total) width in
    let small = mod-le (shr hash total) (2 ^ width) in
    let whole : 2 ^ total * shr hash total ≤ hash = omega (arith, div-add-mod hash (2 ^ total)) in
    let fits : chunk * 2 ^ total ≤ hash =
      mul_le chunk (shr hash total) (2 ^ total) hash small whole in
    let e : shl chunk total ≡ chunk * 2 ^ total = mod-eq_of_lt (omega arith) in
    rw e (
      bit_or_disjoint total (low_bits hash total) chunk (low_bits-lt hash total)
      ∙ sym (low_bits-add hash total width ∙ omega arith))

mul_lt : (p c d : ℕ) → c < d → p * c + p ≤ p * d
mul_lt p c d h = grind arith

high_unique : (a b p c d : ℕ) → a < p → b < p → a + p * c ≡ b + p * d → c ≡ d
high_unique a b p c d u v e = elim (dec_lt c d) [
  | yes lt ↦ absurd (omega (arith, mul_lt p c d lt))
  | no ge ↦ elim (dec_lt d c) [
    | yes lt ↦ absurd (omega (arith, mul_lt p d c lt))
    | no le ↦ omega arith
  ]
]

-- Hashes that differ in a chunk differ in the fingerprint that ends with it.
differ_lem :
    (hash other total width : ℕ)
    → low_bits (shr hash total) width ≢ low_bits (shr other total) width
    → low_bits hash (total + width) ≢ low_bits other (total + width)
differ_lem hash other total width ne e = ne (
    high_unique (low_bits hash total) (low_bits other total) (2 ^ total)
      (low_bits (shr hash total) width) (low_bits (shr other total) width) (low_bits-lt hash total)
      (low_bits-lt other total)
      (sym (low_bits-add hash total width) ∙ e ∙ low_bits-add other total width))

-- What adapt promises of a fingerprint that was `total` bits long: it is made longer, it is the low
-- bits of the stored hash, and those of the other hash differ, unless it has all 64 bits.
abbrev pub Separated : Adapted → ℕ → ℕ → ℕ → Type 0
Separated a hash other total =
    (length : ℕ) × (a.ret ≡ value length)
    × (total < length)
    × (a.ret_hash ≡ low_bits hash length)
    × ((low_bits hash length ≢ low_bits other length) ⊎ (64 ≤ length))

-- A round that is done: no slot, the last round, or a further one.
after_round-eq-done :
    (m : Outcome (Option Qf)) (again : Bool) (recur : Qf → Outcome Adapted) (finish : Qf → Adapted)
    (failed : Adapted) {a : Adapted}
    → (m >>= after_round again recur finish failed) ≡ done a
    → (a ≡ failed)
      ⊎ ((qf' : Qf) × (m ≡ done (some qf'))
          × (((again ≡ true) × (recur qf' ≡ done a)) ⊎ ((again ≡ false) × (a ≡ finish qf'))))
unfolding after_round
after_round-eq-done (done none) again recur finish failed h = inl (ground arith)
after_round-eq-done (done (some qf')) true recur finish failed h = inr (qf', refl, inl (refl, h))
after_round-eq-done (done (some qf')) false recur finish failed h =
    inr (qf', refl, inr (refl, ground arith))
after_round-eq-done abort again recur finish failed h = cc
after_round-eq-done spin again recur finish failed h = cc

test_false : (c d total : ℕ) → ((c == d) && ltb total 64) ≡ false → (c ≢ d) ⊎ (64 ≤ total)
test_false c d total h = elim (ℕ_discrete c d) [ yes e ↦ inr (ground arith) | no ne ↦ inl ne ]

-- A longer fingerprint that is separated serves for a shorter one.
longer :
    (a : Adapted) (hash other total total' : ℕ)
    → total ≤ total'
    → (a.ret ≡ err_no_space) ⊎ Separated a hash other total'
    → (a.ret ≡ err_no_space) ⊎ Separated a hash other total
longer a hash other total total' h (inl e) = inl e
longer a hash other total total' h (inr (l, r, lt, eq, ne)) = inr (l, r, omega arith, eq, ne)

module _ (hash other width : ℕ) (nz : 0 < width) (big : hash < 2 ^ 64) where
  adapt_loop-Separated :
      (fuel : ℕ) (qf : Qf) (index bucket h o slots_used total ret_hash count_len : ℕ) {a : Adapted}
      → qf.bits_per_slot ≡ width
      → shr h width ≡ shr hash total
      → shr o width ≡ shr other total
      → ret_hash ≡ low_bits hash total
      → adapt_loop fuel qf index bucket h o slots_used total ret_hash count_len ≡ done a
      → (a.ret ≡ err_no_space) ⊎ Separated a hash other total
  unfolding adapt_loop
  adapt_loop-Separated zero qf index bucket h o slots_used total ret_hash count_len w eh eo er run =
      cc
  adapt_loop-Separated (suc fuel) qf index bucket h o slots_used total ret_hash count_len {a} w eh
        eo er run =
      elim (after_round-eq-done
        (extend_slot qf (index + slots_used) bucket
          (low_bits (shr h qf.bits_per_slot) qf.bits_per_slot) count_len)
        ((low_bits (shr h qf.bits_per_slot) qf.bits_per_slot
            == low_bits (shr o qf.bits_per_slot) qf.bits_per_slot)
          && ltb (total + qf.bits_per_slot) 64)
        (λ qf'.
          adapt_loop fuel qf' index bucket (shr h qf.bits_per_slot) (shr o qf.bits_per_slot)
            (slots_used + 1) (total + qf.bits_per_slot)
            (bit_or ret_hash (shl (low_bits (shr h qf.bits_per_slot) qf.bits_per_slot) total)) 0)
        (λ qf'. record {
          ret = value (total + qf.bits_per_slot);
          ret_hash =
              bit_or ret_hash (shl (low_bits (shr h qf.bits_per_slot) qf.bits_per_slot) total);
          qf = qf';
        })
        (record { ret = err_no_space; ret_hash = ret_hash; qf = qf }) run) [
          | inl e ↦ inl (ground arith)
          | inr (qf', e, inl (again, rest)) ↦
              let w' =
                extend_slot-width qf (index + slots_used) bucket
                  (low_bits (shr h qf.bits_per_slot) qf.bits_per_slot) count_len e
                ∙ w in
              longer a hash other total (total + qf.bits_per_slot) (omega arith) (
                adapt_loop-Separated fuel qf' index bucket (shr h qf.bits_per_slot)
                  (shr o qf.bits_per_slot) (slots_used + 1) (total + qf.bits_per_slot)
                  (bit_or ret_hash (shl (low_bits (shr h qf.bits_per_slot) qf.bits_per_slot) total))
                  0 w' (rw w (ap (λ (t : ℕ). shr t width) eh ∙ shr-shr hash total width))
                  (rw w (ap (λ (t : ℕ). shr t width) eo ∙ shr-shr other total width))
                  (rw (w, eh, er) (chunk_lem hash total width big)) rest)
          | inr (qf', e, inr (stop, end)) ↦ inr (
            total + qf.bits_per_slot,
            ap (λ (r : Adapted). r.ret) end,
            omega arith,
            ap (λ (r : Adapted). r.ret_hash) end ∙ rw (w, eh, er) (chunk_lem hash total width big),
            apart (
                test_false (low_bits (shr h qf.bits_per_slot) qf.bits_per_slot)
                  (low_bits (shr o qf.bits_per_slot) qf.bits_per_slot) (total + qf.bits_per_slot)
                  stop),
          )
        ]
    where
      apart :
          (low_bits (shr h qf.bits_per_slot) qf.bits_per_slot
              ≢ low_bits (shr o qf.bits_per_slot) qf.bits_per_slot)
            ⊎ (64 ≤ total + qf.bits_per_slot)
          → (low_bits hash (total + qf.bits_per_slot) ≢ low_bits other (total + qf.bits_per_slot))
            ⊎ (64 ≤ total + qf.bits_per_slot)
      apart (inl ne) = inl (rw w (differ_lem hash other total width (λ e. ne (rw (w, eh, eo) e))))
      apart (inr full) = inr full

wide_lem : (hash length : ℕ) → hash < 2 ^ 64 → 64 ≤ length → low_bits hash length ≡ hash
wide_lem hash length h l =
    let e : 64 + (length - 64) ≡ length = omega arith in
    let p = pow-add 64 (length - 64) in
    mod-eq_of_lt (
      rw (← e)
        (wide hash (2 ^ (64 + (length - 64))) (2 ^ (length - 64)) h p (pow_pos (length - 64))))
  where
    wide : (hash x y : ℕ) → hash < 2 ^ 64 → x ≡ 2 ^ 64 * y → 0 < y → hash < x
    wide hash x y h e p = omega arith

assert-eq-done :
    {B : Type 0} (t : Bool) (k : Outcome B) {b : B} → (assert t >> k) ≡ done b → k ≡ done b
assert-eq-done true k h = h
assert-eq-done false k h = cc

checked-eq-done :
    {B : Type 0} (m : Outcome ℕ) (t : ℕ → Bool) (k : Outcome B) {b : B}
    → (m >>= λ s. assert (t s) >> k) ≡ done b
    → k ≡ done b
checked-eq-done (done s) t k h = assert-eq-done (t s) k h
checked-eq-done abort t k h = cc
checked-eq-done spin t k h = cc

-- What adapt comes to is what its loop comes to.
adapt-loop :
    (qf : Qf) (index bucket hash other : ℕ) {info : SlotInfo} {a : Adapted}
    → get_slot_info qf index ≡ done info
    → adapt qf index bucket hash other ≡ done a
    → adapt_loop 64 qf index bucket
        (shr hash (qf.bits_per_slot * info.ext_slots + qf.quotient_bits))
        (shr other (qf.bits_per_slot * info.ext_slots + qf.quotient_bits))
        (info.ext_slots + 1)
        (qf.bits_per_slot * info.ext_slots + fingerprint_bits qf)
        (low_bits hash (qf.bits_per_slot * info.ext_slots + fingerprint_bits qf))
        info.count_slots
      ≡ done a
unfolding adapt
adapt-loop qf index bucket hash other {info} slots run =
    checked-eq-done (get_slot qf index)
      (λ slot. low_bits hash (fingerprint_bits qf) == bit_or slot (shl bucket qf.bits_per_slot)) _
      (assert-eq-done (leb info.count_slots 1) _ (rw slots at run))

-- adapt, run for a stored hash and another 64-bit hash, either finds no empty slot or makes the
-- item's fingerprint longer: it is the low bits of the stored hash, and the other hash differs from
-- the stored one in those bits, so that the fingerprint no longer matches it.
pub adapt-separates :
    (qf : Qf) (index bucket hash other : ℕ) {info : SlotInfo} {a : Adapted}
    → 0 < qf.bits_per_slot
    → hash < 2 ^ 64
    → other < 2 ^ 64
    → hash ≢ other
    → get_slot_info qf index ≡ done info
    → adapt qf index bucket hash other ≡ done a
    → (a.ret ≡ err_no_space)
      ⊎ ((length : ℕ) × (a.ret ≡ value length)
          × (qf.bits_per_slot * info.ext_slots + fingerprint_bits qf < length)
          × (a.ret_hash ≡ low_bits hash length)
          × (low_bits hash length ≢ low_bits other length))
adapt-separates qf index bucket hash other {info} {a} nz big big' ne slots run =
    elim (adapt_loop-Separated hash other qf.bits_per_slot nz big 64 qf index bucket
      (shr hash shift) (shr other shift) (info.ext_slots + 1) total (low_bits hash total)
      info.count_slots refl (shifted hash) (shifted other) refl
      (adapt-loop qf index bucket hash other slots run)) [
        | inl e ↦ inl e
        | inr (length, r, lt, eq, inl apart) ↦ inr (length, r, lt, eq, apart)
        | inr (length, r, lt, eq, inr full) ↦ inr (
          length,
          r,
          lt,
          eq,
          λ e. ne (sym (wide_lem hash length big full) ∙ e ∙ wide_lem other length big' full),
        )
      ]
  where
    shift : ℕ
    shift = qf.bits_per_slot * info.ext_slots + qf.quotient_bits

    total : ℕ
    total = qf.bits_per_slot * info.ext_slots + fingerprint_bits qf

    shifted : (x : ℕ) → shr (shr x shift) qf.bits_per_slot ≡ shr x total
    shifted x =
        let e : shift + qf.bits_per_slot ≡ total = omega arith in
        shr-shr x shift qf.bits_per_slot ∙ ap (shr x) e
