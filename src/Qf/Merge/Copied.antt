-- ===== src/Qf/Merge/Copied.antt =====
-- An item that an iterator of src/gqf.c reads in one filter and _merge_insert writes to another.
use ski_rental_adaptive_qf.Prelude.{
  ℕ, ◌*◌, ◌^◌, ◌≤◌, ◌<◌, ◌≡◌, sym, ap, ◌∙◌, false, Option, none, some, arith, leb, Outcome, done,
  ◌>>=◌, if-false,
}
use ski_rental_adaptive_qf.Qf.{Qf}
use ski_rental_adaptive_qf.Qf.Bits.{get_slot}
use ski_rental_adaptive_qf.Qf.SlotInfo.{SlotInfo, get_slot_info}
use mathlib.Core.Path.{subst}
use ski_rental_adaptive_qf.Qf.Iterate.{Qfi, qfi_end, qfi_get_hash}
use ski_rental_adaptive_qf.Qf.Merge.{Finger, merge_insert}
use ski_rental_adaptive_qf.Qf.Merge.Filters.{Source, load}
use ski_rental_adaptive_qf.Qf.Merge.Bounded.{load-Bounded}
use ski_rental_adaptive_qf.Qf.Merge.Fuel.{Advances, merge_insert-Advances}
use ski_rental_adaptive_qf.Qf.Merge.Frame.{merge_insert-frame}
use ski_rental_adaptive_qf.Qf.Merge.Inserted.{merge_insert-read}

-- The item that load gives is the one in the slot.
read-load :
    (qf : Qf) (run i : ℕ) (finger : Finger) (count n : ℕ)
    → i < qf.xnslots
    → get_slot qf i ≡ done finger.rem
    → get_slot_info qf i
      ≡ done
          (record { ext = finger.ext; ext_slots = finger.ext_len; count = count; count_slots = n })
    → load qf (record { run = run; current = i })
      ≡ done (record { qfi = record { run = run; current = i }; finger = finger; count = count })
unfolding load qfi_get_hash qfi_end
read-load qf run i finger count n lt g e =
    ap (λ (o : Outcome (Option (ℕ × SlotInfo))). o >>= source)
      (if-false (leb qf.xnslots i) _ (not_behind i lt) (
        ap (λ (o : Outcome SlotInfo). o >>= taken) e
        ∙ ap (λ (o : Outcome ℕ). o >>= λ rem. done (some (rem, item))) g))
  where
    not_behind : (i : ℕ) → i < qf.xnslots → leb qf.xnslots i ≡ false
    not_behind i lt = ground arith

    item : SlotInfo
    item = record { ext = finger.ext; ext_slots = finger.ext_len; count = count; count_slots = n }

    taken : SlotInfo → Outcome (Option (ℕ × SlotInfo))
    taken info = get_slot qf i >>= λ rem. done (some (rem, info))

    source : Option (ℕ × SlotInfo) → Outcome Source
    source o = elim o [
      | none ↦ done (record {
        qfi = record { run = run; current = i };
        finger = record { rem = 0; ext = 0; ext_len = 0 };
        count = 0;
      })
      | some (rem, info) ↦ done (record {
        qfi = record { run = run; current = i };
        finger = record { rem = rem; ext = info.ext; ext_len = info.ext_slots };
        count = info.count;
      })
    ]

-- An item of a positive count that the iterator reads in one filter, written by _merge_insert to a
-- filter with slots of the same width, at most 57 bits, at a slot from which on nothing is marked, is read by the
-- iterator there with the same remainder, extension, extension slots and count.
pub load-merge_insert :
    (qf qfc : Qf) (qfi : Qfi) (index run : ℕ) {s : Source} {behind : ℕ} {qfc' : Qf}
    → qf.bits_per_slot ≤ 57
    → load qf qfi ≡ done s
    → 0 < s.count
    → qfc.bits_per_slot ≡ qf.bits_per_slot
    → ((j : ℕ) → index ≤ j → (qfc.extensions j ≡ false) × (qfc.runends j ≡ false))
    → qfc.xnslots ≤ 64 * qfc.nblocks
    → merge_insert qfc index run s.finger s.count ≡ done (behind, qfc')
    → load qfc' (record { run = run; current = index })
      ≡ done (record {
        qfi = record { run = run; current = index };
        finger = s.finger;
        count = s.count;
      })
unfolding Advances
load-merge_insert qf qfc qfi index run {s} {behind} {qfc'} narrow l positive width unused blocks w =
    let b = load-Bounded qf qfi s l positive in
    let r =
      merge_insert-read qfc index run s.finger s.count {behind = behind} {qf' = qfc'} unused blocks
        (omega arith) (subst (λ (n : ℕ). s.finger.rem < 2 ^ n) (sym width) b.0)
        (subst (λ (n : ℕ). s.finger.ext < 2 ^ (s.finger.ext_len * n)) (sym width) b.1) b.2 positive
        b.3 w in
    let a = merge_insert-Advances qfc index run s.finger s.count (behind, qfc') w in
    let same : qfc'.xnslots ≡ qfc.xnslots =
      ap (λ t. t.0) (merge_insert-frame qfc index run s.finger s.count (behind, qfc') w) in
    read-load qfc' run index s.finger s.count _ (omega (arith, a.0, a.1, same)) r.0 r.1
