-- ===== src/Qf/Merge/ReadBack.antt =====
-- What get_slot_info of src/gqf.c reads of an item that _merge_insert wrote.
use ski_rental_adaptive_qf.Prelude.{
  ℕ, suc, ◌+◌, ◌-◌, ◌*◌, ◌^◌, ◌≤◌, ◌<◌, ◌≡◌, refl, sym, ap, ◌∙◌, ◌⊎◌, inl, inr, Bool, true, false,
  arith, if◌then◌else◌, done,
}
use ski_rental_adaptive_qf.Hash.{shr, low_bits}
use ski_rental_adaptive_qf.Qf.{Qf, rounds}
use ski_rental_adaptive_qf.Qf.Bits.{is_extension, is_counter, is_extension_or_counter, get_slot}
use ski_rental_adaptive_qf.Qf.SlotInfo.{get_slot_info}
use ski_rental_adaptive_qf.Qf.SlotInfo.{read_slots}
use ski_rental_adaptive_qf.Qf.Extend.Recount.{read_slots-stop, get_slot_info-of}
use ski_rental_adaptive_qf.Qf.Merge.{Finger}
use ski_rental_adaptive_qf.Qf.Merge.Digits.{read_slots-digits}

-- An item in the slots from index to below behind: its remainder, then up to mid the digits of the
-- extension, then those of the count, if it is not 1.
pub record Item (q : Qf) (index mid behind : ℕ) (f : Finger) (count : ℕ) : Type 0 where
  pub room : behind < rounds q
  pub le_mid : index + 1 ≤ mid
  pub le_behind : mid ≤ behind
  pub first : get_slot q index ≡ done f.rem
  pub start : q.extensions index ≡ false
  pub exts :
      (j : ℕ)
      → index + 1 ≤ j
      → j < mid
      → (q.extensions j ≡ true)
        × (q.runends j ≡ false)
        × (get_slot q j
            ≡ done (low_bits (shr f.ext ((j - (index + 1)) * q.bits_per_slot)) q.bits_per_slot))
  pub counters :
      (j : ℕ)
      → mid ≤ j
      → j < behind
      → (q.extensions j ≡ true)
        × (q.runends j ≡ true)
        × (get_slot q j ≡ done (low_bits (shr count ((j - mid) * q.bits_per_slot)) q.bits_per_slot))
  pub stop : q.extensions behind ≡ false
  pub ext_fits : f.ext < 2 ^ ((mid - (index + 1)) * q.bits_per_slot)
  pub count_fits :
      ((mid < behind) × (count < 2 ^ ((behind - mid) * q.bits_per_slot)))
      ⊎ ((mid ≡ behind) × (count ≡ 1))

no_digits : (v i b : ℕ) → low_bits v ((i - i) * b) ≡ 0
no_digits v i b =
    let e : (i - i) * b ≡ 0 =
      ap (λ (t : ℕ). t * b) {x = i - i} {y = 0} (omega arith) ∙ omega arith in
    rw e (omega arith)

ends_extensions :
    (q : Qf) (index mid behind : ℕ) (f : Finger) (count : ℕ)
    → Item q index mid behind f count
    → is_extension q mid ≡ false
unfolding is_extension
ends_extensions q index mid behind f count w = elim w.count_fits [
  | inl (lt, _) ↦ let c = w.counters mid (omega arith) lt in ground arith
  | inr (e, _) ↦ let s : q.extensions mid ≡ false = rw e w.stop in ground arith
]

read_exts :
    (q : Qf) (index mid behind : ℕ) (f : Finger) (count : ℕ)
    → Item q index mid behind f count
    → f.ext < 2 ^ 64
    → read_slots is_extension (rounds q) q (index + 1) (index + 1) 0 ≡ done (f.ext, mid)
unfolding is_extension
read_exts q index mid behind f count w small =
    ap (λ (t : ℕ). read_slots is_extension (rounds q) q (index + 1) (index + 1) t)
      (sym (no_digits f.ext (index + 1) q.bits_per_slot))
    ∙ read_slots-digits is_extension q (index + 1) f.ext (mid - (index + 1)) (rounds q) (index + 1)
        mid (omega (arith, w.room, w.le_behind, w.le_mid)) (omega (arith, w.le_mid)) (omega arith)
        small w.ext_fits
        (
          λ j p r. (ground (arith, w.exts j p r), (w.exts j p r).2),
          ends_extensions q index mid behind f count w,
        )

counter_at : (q : Qf) (j : ℕ) → q.extensions j ≡ true → q.runends j ≡ true → is_counter q j ≡ true
unfolding is_counter
counter_at q j e r = rw (e, r) refl

no_counter_at : (q : Qf) (j : ℕ) → q.extensions j ≡ false → is_counter q j ≡ false
unfolding is_counter
no_counter_at q j e = rw e refl

read_count :
    (q : Qf) (index mid behind : ℕ) (f : Finger) (count : ℕ)
    → Item q index mid behind f count
    → count < 2 ^ 64
    → read_slots is_counter (rounds q) q mid mid (if is_counter q mid then 0 else 1)
      ≡ done (count, behind)
read_count q index mid behind f count w small = elim w.count_fits [
  | inl (lt, fits) ↦
      let c = w.counters mid (omega arith) lt in
      ap (λ (b : Bool). read_slots is_counter (rounds q) q mid mid (if b then 0 else 1))
        (counter_at q mid c.0 c.1)
      ∙ ap (λ (t : ℕ). read_slots is_counter (rounds q) q mid mid t)
          (sym (no_digits count mid q.bits_per_slot))
      ∙ read_slots-digits is_counter q mid count (behind - mid) (rounds q) mid behind
          (omega (arith, w.room)) (omega (arith, w.le_behind)) (omega arith) small fits
          (
            λ j p r. let c = w.counters j p r in (counter_at q j c.0 c.1, c.2),
            no_counter_at q behind w.stop,
          )
  | inr (e, one) ↦
      let s : q.extensions mid ≡ false = rw e w.stop in
      let fuel : rounds q ≡ suc (64 * q.nblocks) = omega arith in
      let none_there = no_counter_at q mid s in
      ap (λ (b : Bool). read_slots is_counter (rounds q) q mid mid (if b then 0 else 1)) none_there
      ∙ ap (λ (n : ℕ). read_slots is_counter n q mid mid 1) fuel
      ∙ read_slots-stop is_counter (64 * q.nblocks) q mid mid 1 none_there
      ∙ ap (λ (t : ℕ). done (t, mid)) (sym one)
      ∙ ap (λ (t : ℕ). done (count, t)) e
]

pub Item-info :
    (q : Qf) (index mid behind : ℕ) (f : Finger) (count : ℕ)
    → Item q index mid behind f count
    → f.ext < 2 ^ 64
    → count < 2 ^ 64
    → get_slot_info q index
      ≡ done (record {
        ext = f.ext;
        ext_slots = mid - (index + 1);
        count = count;
        count_slots = behind - mid;
      })
unfolding is_extension_or_counter
Item-info q index mid behind f count w p r =
    get_slot_info-of q index f.ext mid count behind w.start
      (read_exts q index mid behind f count w p) (read_count q index mid behind f count w r)
