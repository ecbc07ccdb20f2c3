-- ===== src/Qf/Merge/Bounded.antt =====
-- The numbers of the items that an iterator of src/gqf.c reads, which fit the slots they stand in.
use ski_rental_adaptive_qf.Prelude.{
  ◌%◌, ℕ, zero, suc, ◌+◌, ◌-◌, ◌*◌, ◌^◌, ◌≤◌, ◌<◌, bit_or, ◌≡◌, ap, Bool, false, Option, none, some,
  arith, ltb, leb, if◌then◌else◌, ltb→lt, Outcome, done, all-bind, all-done, all-if, all-elim,
  all-assert-true,
}
use ski_rental_adaptive_qf.Qf.{Qf, rounds}
use ski_rental_adaptive_qf.Qf.Bits.{is_extension, is_counter, get_slot}
use ski_rental_adaptive_qf.Hash.{shl}
use ski_rental_adaptive_qf.Qf.SlotInfo.{SlotInfo, get_slot_info}
use ski_rental_adaptive_qf.Row.Fields.{field-lt}
use ski_rental_adaptive_qf.Arith.{pow_pos, below_pow, times_pow-lt, bit_or-lt}
use mathlib.Core.Path.{subst}
use ski_rental_adaptive_qf.Qf.SlotInfo.{read_slots}
use ski_rental_adaptive_qf.Qf.Extend.Recount.{get_slot_info-parts}
use ski_rental_adaptive_qf.Qf.Iterate.{Qfi, qfi_end, qfi_get_hash}
use ski_rental_adaptive_qf.Qf.Merge.Filters.{Source, load}
use ski_rental_adaptive_qf.Qf.Bits.{slot_width}
use ski_rental_adaptive_qf.Qf.Slots.{slot_width-le}
use native.Mathlib.Nat.{pow-le-pow_right, mod-le, mod-lt, add-mul}

-- A walk that has not passed the last slot reads slots of bits_per_slot bits.
get_slot-lt :
    (qf : Qf) (i v : ℕ)
    → i ≤ qf.xnslots
    → get_slot qf i ≡ done v
    → (v < 2 ^ qf.bits_per_slot) × (i < qf.xnslots)
unfolding get_slot
get_slot-lt qf i v le =
    all-if P (ltb qf.xnslots i) _ _ (λ t. absurd (omega (arith, ltb→lt qf.xnslots i t)))
      (λ _. all-assert-true P (ltb i qf.xnslots) _ (λ lt. all-done P _ (
        omega (
          arith,
          field-lt qf.remainders (i * qf.bits_per_slot) (slot_width qf i),
          pow-le-pow_right {n = 2} (omega arith) (slot_width-le qf i),
        ),
        ltb→lt i qf.xnslots lt,
      )))
      v
  where
    P : ℕ → Type 0
    P v = (v < 2 ^ qf.bits_per_slot) × (i < qf.xnslots)

-- What a walk comes to fits the slots that it has read, and 64 bits.
Fits : Qf → ℕ → ℕ × ℕ → Type 0
Fits qf base r = (r.0 < 2 ^ ((r.1 - base) * qf.bits_per_slot)) × (r.0 < 2 ^ 64)

shl-lt : (slot s bits : ℕ) → slot < 2 ^ bits → (shl slot s < 2 ^ (s + bits)) × (shl slot s < 2 ^ 64)
shl-lt slot s bits lt = (below, mod-lt (slot * 2 ^ s) (omega arith))
  where
    below : shl slot s < 2 ^ (s + bits)
    below = omega (
      arith,
      mod-le (slot * 2 ^ s) (2 ^ 64),
      times_pow-lt slot bits s lt,
      ap (λ (t : ℕ). 2 ^ t) {x = bits + s} {y = s + bits} (omega arith),
    )

-- A shift amount modulo 64 is no larger.
shl_modulo-lt :
    (slot s bits : ℕ)
    → slot < 2 ^ bits
    → (shl slot (s % 64) < 2 ^ (s + bits)) × (shl slot (s % 64) < 2 ^ 64)
shl_modulo-lt slot s bits lt =
    let r = shl-lt slot (s % 64) bits lt in
    (
      omega (
        arith,
        r.0,
        pow-le-pow_right {n = 2} (omega arith) {i = s % 64 + bits} {j = s + bits} (omega arith),
      ),
      r.1,
    )

-- One slot more.
grown :
    (x y i base bits : ℕ)
    → base ≤ i
    → x < 2 ^ ((i - base) * bits)
    → y < 2 ^ ((i - base) * bits + bits)
    → bit_or x y < 2 ^ ((i + 1 - base) * bits)
grown x y i base bits le p q =
    let e : (i - base) * bits + bits ≡ (i + 1 - base) * bits = omega (
      arith,
      add-mul (i - base) 1 bits,
      ap (λ (t : ℕ). t * bits) {x = i - base + 1} {y = i + 1 - base} (omega arith),
    ) in
    subst (λ (t : ℕ). bit_or x y < 2 ^ t) e
      (bit_or-lt ((i - base) * bits + bits) x y
        (omega (arith, below_pow ((i - base) * bits) ((i - base) * bits + bits) (omega arith))) q)

read_slots-Fits :
    (test : Qf → ℕ → Bool) (fuel : ℕ) (qf : Qf) (base i acc : ℕ)
    → base ≤ i
    → i ≤ qf.xnslots
    → acc < 2 ^ ((i - base) * qf.bits_per_slot)
    → acc < 2 ^ 64
    → (r : ℕ × ℕ) → read_slots test fuel qf base i acc ≡ done r
    → Fits qf base r
unfolding read_slots Fits
read_slots-Fits test zero qf base i acc le within p q = λ r h. cc
read_slots-Fits test (suc fuel) qf base i acc le within p q =
    all-elim (Fits qf base) (test qf i) _ _
      (λ _. all-bind (Fits qf base) (get_slot qf i) _ (λ slot e.
        let g = get_slot-lt qf i slot within e in
        let s = shl_modulo-lt slot ((i - base) * qf.bits_per_slot) qf.bits_per_slot g.0 in
        read_slots-Fits test fuel qf base (i + 1) _ (omega arith) (omega (arith, g.1))
          (grown acc _ i base qf.bits_per_slot le p s.0) (bit_or-lt 64 acc _ q s.1)))
      (λ _. all-done (Fits qf base) (acc, i) (p, q))

read_slots-word :
    (test : Qf → ℕ → Bool) (fuel : ℕ) (qf : Qf) (base i acc : ℕ)
    → acc < 2 ^ 64
    → (r : ℕ × ℕ) → read_slots test fuel qf base i acc ≡ done r
    → r.0 < 2 ^ 64
unfolding read_slots
read_slots-word test zero qf base i acc q = λ r h. cc
read_slots-word test (suc fuel) qf base i acc q =
    all-elim (λ r. r.0 < 2 ^ 64) (test qf i) _ _
      (λ _.
        all-bind (λ r. r.0 < 2 ^ 64) (get_slot qf i) _
          (λ slot e. read_slots-word test fuel qf base (i + 1) _ (
            bit_or-lt 64 acc _ q
              (mod-lt (slot * 2 ^ ((i - base) * qf.bits_per_slot % 64)) (omega arith)))))
      (λ _. all-done (λ r. r.0 < 2 ^ 64) (acc, i) q)

-- The numbers of an item fit the slots that it stands in.
Bounded : Qf → ℕ → SlotInfo → Type 0
Bounded qf rem info =
    (rem < 2 ^ qf.bits_per_slot)
    × (info.ext < 2 ^ (info.ext_slots * qf.bits_per_slot))
    × (info.ext < 2 ^ 64)
    × (info.count < 2 ^ 64)

item-Bounded :
    (qf : Qf) (i rem : ℕ) (info : SlotInfo)
    → i < qf.xnslots
    → get_slot qf i ≡ done rem
    → get_slot_info qf i ≡ done info
    → Bounded qf rem info
unfolding Bounded Fits
item-Bounded qf i rem info lt g e =
    let (ext, curr, count, stop, r₁, r₂, same) = get_slot_info-parts qf i e in
    let f =
      read_slots-Fits is_extension (rounds qf) qf (i + 1) (i + 1) 0 (omega arith) (omega arith)
        (pow_pos ((i + 1 - (i + 1)) * qf.bits_per_slot)) (omega arith) (ext, curr) r₁ in
    let c =
      read_slots-word is_counter (rounds qf) qf curr curr (if is_counter qf curr then 0 else 1)
        (at_most_one (is_counter qf curr)) (count, stop) r₂ in
    ((get_slot-lt qf i rem (omega arith) g).0, rw same f.0, rw same f.1, rw same c)
  where
    at_most_one : (b : Bool) → (if b then 0 else 1) < 2 ^ 64
    at_most_one b = ground arith

-- What qfi_get_hash reads, if it is not at the end.
ReadsBounded : Qf → Option (ℕ × SlotInfo) → Type 0
ReadsBounded qf none = Unit {0}
ReadsBounded qf (some (rem, info)) = Bounded qf rem info

qfi_get_hash-Bounded :
    (qf : Qf) (qfi : Qfi) (o : Option (ℕ × SlotInfo))
    → qfi_get_hash qf qfi ≡ done o
    → ReadsBounded qf o
unfolding qfi_get_hash qfi_end ReadsBounded
qfi_get_hash-Bounded qf qfi =
    all-if (ReadsBounded qf) (leb qf.xnslots qfi.current) _ _
      (λ _. all-done (ReadsBounded qf) none tt)
      (λ f. all-bind (ReadsBounded qf) (get_slot_info qf qfi.current) _ (λ info e.
        all-bind (ReadsBounded qf) (get_slot qf qfi.current) _ (λ rem g.
          all-done (ReadsBounded qf) (some (rem, info))
            (item-Bounded qf qfi.current rem info (not_behind qfi.current f) g e))))
  where
    not_behind : (i : ℕ) → leb qf.xnslots i ≡ false → i < qf.xnslots
    not_behind i f = ground arith

-- An item of a positive count, as `load` gives it, in the form that it is written in.
pub load-Bounded :
    (qf : Qf) (qfi : Qfi) (s : Source)
    → load qf qfi ≡ done s
    → 0 < s.count
    → (s.finger.rem < 2 ^ qf.bits_per_slot)
      × (s.finger.ext < 2 ^ (s.finger.ext_len * qf.bits_per_slot))
      × (s.finger.ext < 2 ^ 64)
      × (s.count < 2 ^ 64)
unfolding load ReadsBounded Bounded
load-Bounded qf qfi s =
    all-bind P (qfi_get_hash qf qfi) source (λ o e. taken o (qfi_get_hash-Bounded qf qfi o e)) s
  where
    P : Source → Type 0
    P s =
        0 < s.count
        → (s.finger.rem < 2 ^ qf.bits_per_slot)
          × (s.finger.ext < 2 ^ (s.finger.ext_len * qf.bits_per_slot))
          × (s.finger.ext < 2 ^ 64)
          × (s.count < 2 ^ 64)

    source : Option (ℕ × SlotInfo) → Outcome Source
    source o = elim o [
      | none ↦
          done (record { qfi = qfi; finger = record { rem = 0; ext = 0; ext_len = 0 }; count = 0 })
      | some (rem, info) ↦ done (record {
        qfi = qfi;
        finger = record { rem = rem; ext = info.ext; ext_len = info.ext_slots };
        count = info.count;
      })
    ]

    taken : (o : Option (ℕ × SlotInfo)) → ReadsBounded qf o → (t : Source) → source o ≡ done t → P t
    taken none b = all-done P _ (λ positive. absurd (omega arith))
    taken (some (rem, info)) b = all-done P _ (λ positive. b)
