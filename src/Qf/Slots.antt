-- ===== src/Qf/Slots.antt =====
-- get_slot of src/gqf.c after set_slot: the slots and the 64-bit words that they are accessed by.
use ski_rental_adaptive_qf.Prelude.{
  min, fun_ext, bit_or, ◌||◌, ◌/◌, ◌%◌, lt→ltb, ℕ, ◌+◌, ◌-◌, ◌*◌, ◌^◌, ◌≤◌, ◌<◌, ◌≡◌, ◌∙◌, ◌≢◌, ◌⊎◌,
  inl, inr, arith, dec_lt, ℕ_discrete, ◌==◌, if◌then◌else◌, done,
}
use ski_rental_adaptive_qf.Qf.{Qf}
use ski_rental_adaptive_qf.Qf.Bits.{in_word, slot_width, slots_end, spilled, get_slot, set_slot}
use ski_rental_adaptive_qf.Row.{Row, bit, set_field, field}
use ski_rental_adaptive_qf.Row.Fields.{bit-zero_of_lt, field-set_field_self, field-set_field_ne}
use ski_rental_adaptive_qf.Arith.{bit_or_comm, zero-bit_or}
use native.Mathlib.Nat.{div-eq_of_lt, mod-le, pow-le-pow_right}

apart_lem : (i j b : ℕ) → i ≢ j → (i * b + b ≤ j * b) ⊎ (j * b + b ≤ i * b)
apart_lem i j b ne = elim (dec_lt i j) [
  | yes lt ↦ inl (grind arith)
  | no ge ↦ inr (less j i (omega arith))
]
  where
    less : (j i : ℕ) → j < i → j * b + b ≤ i * b
    less j i h = grind arith

-- A slot of at most 57 bits is in the word that it is accessed by, wherever it stands.
pub slot_width-eq : (qf : Qf) (i : ℕ) → qf.bits_per_slot ≤ 57 → slot_width qf i ≡ qf.bits_per_slot
unfolding slot_width in_word
slot_width-eq qf i le = ground arith

pub slot_width-le : (qf : Qf) (i : ℕ) → slot_width qf i ≤ qf.bits_per_slot
unfolding slot_width
slot_width-le qf i = ground arith

-- A byte that fits the slot fits the part of it in the word.
pub byte-fits : (qf : Qf) (i v : ℕ) → v < 2 ^ qf.bits_per_slot → v < 256 → v < 2 ^ slot_width qf i
unfolding slot_width in_word
byte-fits qf i v fits byte = elim (dec_lt (64 - i * qf.bits_per_slot % 8) qf.bits_per_slot) [
  | yes cut ↦
      let e : min qf.bits_per_slot (64 - i * qf.bits_per_slot % 8) ≡ 64 - i * qf.bits_per_slot % 8 =
        ground arith in
      rw e (
        omega (
          arith,
          pow-le-pow_right {n = 2} (omega arith) {i = 8} {j = 64 - i * qf.bits_per_slot % 8}
              (omega arith),
        ))
  | no whole ↦
      let e : min qf.bits_per_slot (64 - i * qf.bits_per_slot % 8) ≡ qf.bits_per_slot =
        ground arith in
      rw e fits
]

-- A slot that was written reads back as the value, and every other slot as before, for a value that
-- fits the part of the slot in its word.
pub get_slot-set_slot :
    (qf : Qf) (i v j : ℕ) {qf' : Qf}
    → v < 2 ^ slot_width qf i
    → set_slot qf i v ≡ done qf'
    → get_slot qf' j ≡ (if i == j then done v else get_slot qf j)
unfolding get_slot set_slot slot_width
get_slot-set_slot qf i v j h run = elim (ℕ_discrete i j) [
  | yes same ↦
      let l =
        field-set_field_self qf.remainders (i * qf.bits_per_slot) (slot_width qf i) stop v h in
      ground arith
  | no diff ↦
      let l =
        field-set_field_ne qf.remainders (i * qf.bits_per_slot) (slot_width qf i) stop v
          (j * qf.bits_per_slot) (slot_width qf j) (inl h)
          (elim (apart_lem i j qf.bits_per_slot diff) [
            | inl p ↦ inl (omega (arith, slot_width-le qf i))
            | inr p ↦ inr (omega (arith, slot_width-le qf j))
          ]) in
      ground arith
]
  where
    stop : ℕ
    stop = min (i * qf.bits_per_slot + in_word qf i) (slots_end qf i)

-- A value that fits the slot leaves every other slot as before, even if it does not fit the word.
pub get_slot-set_slot_ne :
    (qf : Qf) (i v j : ℕ) {qf' : Qf}
    → v < 2 ^ qf.bits_per_slot
    → i ≢ j
    → set_slot qf i v ≡ done qf'
    → get_slot qf' j ≡ get_slot qf j
unfolding get_slot set_slot slot_width
get_slot-set_slot_ne qf i v j h diff run =
    let l =
      field-set_field_ne qf.remainders (i * qf.bits_per_slot) (slot_width qf i) stop v
        (j * qf.bits_per_slot) (slot_width qf j) fits
        (elim (apart_lem i j qf.bits_per_slot diff) [
          | inl p ↦ inl (omega (arith, slot_width-le qf i))
          | inr p ↦ inr (omega (arith, slot_width-le qf j))
        ]) in
    ground arith
  where
    stop : ℕ
    stop = min (i * qf.bits_per_slot + in_word qf i) (slots_end qf i)

    fits : (v < 2 ^ slot_width qf i) ⊎ (stop ≤ i * qf.bits_per_slot + slot_width qf i)
    fits = elim (dec_lt (in_word qf i) qf.bits_per_slot) [
      | yes cut ↦ let e : slot_width qf i ≡ in_word qf i = ground arith in inr (rw e (omega arith))
      | no whole ↦ let e : slot_width qf i ≡ qf.bits_per_slot = ground arith in inl (rw e h)
    ]

spilled-zero : (qf : Qf) (i v : ℕ) → v < 2 ^ slot_width qf i → spilled qf i v ≡ 0
unfolding spilled slots_end
spilled-zero qf i v h =
    let room : i * qf.bits_per_slot + qf.bits_per_slot ≤ (i / 64 + 1) * 64 * qf.bits_per_slot =
      omega (arith, last ((i / 64 + 1) * 64) (omega arith)) in
    div-eq_of_lt (
      omega (
        arith,
        h,
        mod-le v (2 ^ in_word qf i),
        pow-le-pow_right {n = 2} (omega arith) {i = slot_width qf i}
            {j = (i / 64 + 1) * 64 * qf.bits_per_slot - i * qf.bits_per_slot}
            (omega (arith, slot_width-le qf i)),
      ))
  where
    last : (n : ℕ) → i + 1 ≤ n → i * qf.bits_per_slot + qf.bits_per_slot ≤ n * qf.bits_per_slot
    last n le = grind arith

-- The remainders with a value in a slot.
abbrev pub slot_set : Qf → ℕ → ℕ → Row
slot_set qf i v =
    set_field qf.remainders (i * qf.bits_per_slot) (slot_width qf i)
      (min (i * qf.bits_per_slot + in_word qf i) (slots_end qf i)) v

-- A value that fits the slot in its word is written to the remainders only.
pub set_slot-inside :
    (qf : Qf) (i v : ℕ)
    → v < 2 ^ slot_width qf i
    → i < qf.xnslots
    → set_slot qf i v ≡ done (record qf { remainders = slot_set qf i v })
unfolding set_slot
set_slot-inside qf i v h inside =
    let none_left = spilled-zero qf i v h in
    rw (lt→ltb i qf.xnslots inside, none_left)
      (λ k. done (record qf {
        remainders = slot_set qf i v;
        offset = fun_ext same_offset k;
        occupieds = fun_ext same_bucket k;
      }))
  where
    same_offset :
        (b : ℕ)
        → (if b == i / 64 + 1 then bit_or (qf.offset b) (0 % 256) else qf.offset b) ≡ qf.offset b
    same_offset b = let e = bit_or_comm (qf.offset b) 0 ∙ zero-bit_or (qf.offset b) in ground arith

    same_bucket :
        (b : ℕ)
        → (if (b / 64) == (i / 64 + 1)
            then qf.occupieds b || bit (0 / 256) (b % 64)
            else qf.occupieds b)
          ≡ qf.occupieds b
    same_bucket b =
        let e = bit-zero_of_lt 0 (0 / 256) (b % 64) (omega arith) (omega arith) in ground arith

-- What get_slot reads in a slot of at most 57 bits.
pub get_slot-field :
    (qf : Qf) (i : ℕ)
    → qf.bits_per_slot ≤ 57
    → i < qf.xnslots
    → get_slot qf i ≡ done (field qf.remainders (i * qf.bits_per_slot) qf.bits_per_slot)
unfolding get_slot
get_slot-field qf i w lt = let e = slot_width-eq qf i w in rw e (ground arith)
