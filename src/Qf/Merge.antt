-- ===== src/Qf/Merge.antt =====
-- The parts of merging in src/gqf.c: _finger_cmp, which orders fingerprints, and _merge_insert, which
-- writes a whole item behind those written so far.
pub mod Filters
pub mod Resize
pub mod Frame
pub mod Uncounted
pub mod Order
pub mod Digits
pub mod Written
pub mod Loops
pub mod ReadBack
pub mod Placed
pub mod Inserted
pub mod Fuel
pub mod Bounded
pub mod Copied
pub mod Stuck
use ski_rental_adaptive_qf.Prelude.{
  ℕ, zero, suc, ◌+◌, ◌-◌, ◌*◌, ◌/◌, ◌%◌, ◌^◌, ◌≤◌, ◌<◌, min, bit_and, bit_or, bit_xor, ◌≡◌, refl,
  sym, ap, ◌∙◌, fun_ext, ◌≢◌, ◌↔◌, ◌⊎◌, inl, inr, Bool, true, false, ◌&&◌, ◌||◌, not, Option, none,
  some, List, [], ◌∷◌, ◌++◌, map, arith, dec_lt, ℕ_discrete, update, ltb, leb, ◌==◌, if◌then◌else◌,
  ltb→lt, lt→ltb, leb→le, ==_iff, Bool-cases, Outcome, done, abort, spin, ◌>>=◌, ◌>>◌, assert,
  >>=-eq-done, >>=-cong, >>=-done, assert-true, if-true, if-false, all-bind, all-done, all-if,
  all-assert, ℤ, pos, negsuc, sub_ℕ,
}
use ski_rental_adaptive_qf.Qf.{
  HashMode, hash_default, hash_invertible, hash_none, Flags, Qf, no_space, hash_key, rounds,
}
use ski_rental_adaptive_qf.Qf.Bits.{
  is_runend, is_occupied, is_extension, is_counter, is_runend_or_counter, is_extension_or_counter,
  get_slot, set_slot, mark_runend, clear_runend, flip_runend, mark_extension, clear_extension,
  flip_extension, mark_occupied, clear_occupied, might_be_empty,
}
use ski_rental_adaptive_qf.Hash.{add64, sub64, mul64, not64, shl, shr, low_bits}

-- The while loop of _finger_cmp over the extensions, slot by slot, and the comparison of the lengths.
unfoldable pub ext_cmp : ℕ → ℕ → ℕ → ℕ → ℕ → ℕ → Outcome ℤ
ext_cmp zero bits_per_item exta extlena extb extlenb = spin
ext_cmp (suc fuel) bits_per_item exta extlena extb extlenb = elim (exta == extb) [
  | true ↦
      done (if extlena == extlenb then pos 0 else if ltb extlena extlenb then negsuc 0 else pos 1)
  | false ↦
      let a : ℕ = low_bits exta bits_per_item in
      let b : ℕ = low_bits extb bits_per_item in
      elim (ltb a b) [
        | true ↦ done (negsuc 0)
        | false ↦ elim (ltb b a) [
          | true ↦ done (pos 1)
          | false ↦
              ext_cmp fuel bits_per_item (shr exta bits_per_item) extlena (shr extb bits_per_item)
                extlenb
        ]
      ]
]

-- A fingerprint behind its bucket: the remainder, the extension and the number of its slots.
pub record Finger : Type 0 where
  pub rem : ℕ
  pub ext : ℕ
  pub ext_len : ℕ

-- 64 rounds shift the extensions out, if a slot has bits at all.
unfoldable pub finger_cmp : ℕ → Finger → Finger → Outcome ℤ
unfolding ext_cmp
finger_cmp bits_per_item a b =
    if ltb a.rem b.rem
    then done (negsuc 0)
    else if ltb b.rem a.rem
    then done (pos 1)
    else ext_cmp 65 bits_per_item a.ext a.ext_len b.ext b.ext_len

-- The for loop over the extension slots.
unfoldable pub put_extensions : ℕ → Qf → ℕ → ℕ → Outcome (ℕ × Qf)
put_extensions zero qf current ext = done (current, qf)
put_extensions (suc n) qf current ext = do
  qf' ← set_slot qf current (low_bits ext qf.bits_per_slot)
  put_extensions n (mark_extension qf' current) (current + 1) (shr ext qf.bits_per_slot)

-- `while (count > 0) { ... }`. A round that does not abort moves `current` on below xnslots.
unfoldable pub put_counters : ℕ → Qf → ℕ → ℕ → Outcome (ℕ × Qf)
put_counters zero qf current count = spin
put_counters (suc fuel) qf current count = elim (ltb 0 count) [
  | true ↦ set_slot qf current (low_bits count qf.bits_per_slot) >>= λ qf'.
      put_counters fuel (mark_runend (mark_extension qf' current) current) (current + 1)
        (shr count qf.bits_per_slot)
  | false ↦ done (current, qf)
]

-- `offset++` for each of n slots from i on that lies in another block than the bucket. The offset is
-- one byte, and wraps here.
unfoldable pub raise_offsets : ℕ → ℕ → ℕ → (ℕ → ℕ) → ℕ → ℕ
raise_offsets zero i bucket_block offset = offset
raise_offsets (suc n) i bucket_block offset = raise_offsets n (i + 1) bucket_block (
    if (i / 64) == bucket_block
    then offset
    else update offset (i / 64) ((offset (i / 64) + 1) % 256))

-- The result is the slot behind the item.
unfoldable pub merge_insert : Qf → ℕ → ℕ → Finger → ℕ → Outcome (ℕ × Qf)
unfolding put_extensions put_counters raise_offsets set_slot
merge_insert qf index run finger count = do
  qf₁ ← set_slot qf index finger.rem
  (behind, qf₂) ← put_extensions finger.ext_len qf₁ (index + 1) finger.ext
  (current, qf₃) ←
      if ltb 1 count then put_counters (rounds qf) qf₂ behind count else done (behind, qf₂)
  done (
    current,
    if ((current - 1) / 64) == (run / 64)
        then qf₃
        else record qf₃ { offset = raise_offsets (current - index) index (run / 64) qf₃.offset },
  )
