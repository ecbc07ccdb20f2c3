-- ===== src/Tests/Merging.antt =====
-- Items written one behind the other, filters merged and resized, and hashes for bulk insertion.
use ski_rental_adaptive_qf.Prelude.{
  ℕ, ◌<◌, ◌≡◌, refl, ◌↔◌, inr, true, false, some, [], ◌∷◌, arith, done, abort, spin, ℤ, pos,
}
use ski_rental_adaptive_qf.Qf.{Qf}
use ski_rental_adaptive_qf.Qf.Bits.{is_extension_or_counter, get_slot}
use ski_rental_adaptive_qf.Qf.Create.{Blocks}
use ski_rental_adaptive_qf.Qf.SlotInfo.{get_slot_info}
use ski_rental_adaptive_qf.Word.{count_ones}
use ski_rental_adaptive_qf.Row.{field, set_field}
use ski_rental_adaptive_qf.Qf.Iterate.{Qfi, qfi_end, qf_iterator_from_position, qfi_next}
use ski_rental_adaptive_qf.Qf.Iterate.Forward.{qfi_next-forward}
use ski_rental_adaptive_qf.Qf.Merge.{Finger, finger_cmp, merge_insert}
use ski_rental_adaptive_qf.Qf.Merge.Order.{negate, finger_cmp_lem}
use ski_rental_adaptive_qf.Qf.Merge.Placed.{SameBefore}
use ski_rental_adaptive_qf.Qf.Merge.Inserted.{merge_insert-read}
use ski_rental_adaptive_qf.Qf.Merge.Filters.{Source, load, qf_merge_ret}
use ski_rental_adaptive_qf.Qf.Merge.Copied.{load-merge_insert}
use ski_rental_adaptive_qf.Qf.Merge.Uncounted.{qf_merge_ret-uncounted}
use ski_rental_adaptive_qf.Qf.Merge.Resize.{qf_resize_malloc}
use ski_rental_adaptive_qf.Qf.Merge.Stuck.{qf_resize_malloc-never}
use ski_rental_adaptive_qf.Qf.Bulk.{sort_hash}
use ski_rental_adaptive_qf.Qf.Bulk.SortKeys.{sort_hash-lt}
use ski_rental_adaptive_qf.Tests.Filters.{empty_qf, one_item}

-- An item with two extension slots, and a count for two counter slots.
abbrev finger : Finger
finger = record { rem = 5; ext = 0x2b; ext_len = 2 }

abbrev written : Qf
written = elim (merge_insert empty_qf 3 3 finger 20) [
  | done (i, qf) ↦ qf
  | abort ↦ empty_qf
  | spin ↦ empty_qf
]

merge_insert-read_example :
    (get_slot written 3 ≡ done 5)
    × (get_slot_info written 3
        ≡ done (record { ext = 0x2b; ext_slots = 2; count = 20; count_slots = 2 }))
    × SameBefore 3 empty_qf written
unfolding merge_insert
merge_insert-read_example =
    merge_insert-read empty_qf 3 3 finger 20 {behind = 8} {qf' = written} (λ j p. (refl, refl))
      (omega arith) (omega arith) (omega arith) (omega arith) (omega arith) (omega arith)
      (omega arith) refl

finger_cmp_lem_example :
    (order : ℤ) × (finger_cmp 4 finger (record { rem = 5; ext = 0x3b; ext_len = 2 }) ≡ done order)
    × (finger_cmp 4 (record { rem = 5; ext = 0x3b; ext_len = 2 }) finger ≡ done (negate order))
    × ((order ≡ pos 0) ↔ (finger ≡ record { rem = 5; ext = 0x3b; ext_len = 2 }))
finger_cmp_lem_example =
    finger_cmp_lem 4 (omega arith) finger (record { rem = 5; ext = 0x3b; ext_len = 2 })
      (omega arith) (omega arith)

-- The same item from two filters: one item, with its fingerprint as a collision.
abbrev merged : Qf
merged = elim (qf_merge_ret true one_item one_item empty_qf) [
  | done (c, qf) ↦ qf
  | abort ↦ one_item
  | spin ↦ one_item
]

qf_merge_ret-uncounted_example :
    (merged.noccupied_slots ≡ 0) × (merged.nelts ≡ 0) × (merged.ndistinct_elts ≡ 0)
unfolding qf_merge_ret count_ones field
qf_merge_ret-uncounted_example =
    qf_merge_ret-uncounted true one_item one_item empty_qf {collisions = (0x235, 10) ∷ []}
      {qf' = merged} refl

merged_item :
    get_slot_info merged 35 ≡ done (record { ext = 0; ext_slots = 0; count = 2; count_slots = 1 })
unfolding qf_merge_ret get_slot_info count_ones field set_field
merged_item = refl

abbrev memory : Blocks
memory = record {
  offset = λ b. 0;
  occupieds = λ i. false;
  runends = λ i. false;
  extensions = λ i. false;
  remainders = λ i. false;
}

qf_resize_malloc-never_example :
    ¬ ((qf' : Qf) × (qf_resize_malloc (λ n. 80) 128 one_item 128 memory ≡ done (1, qf')))
unfolding qf_iterator_from_position qfi_end count_ones
qf_resize_malloc-never_example =
    qf_resize_malloc-never (λ n. 80) 128 one_item 128 memory {first = some 35}
      {qfi = record { run = 35; current = 35 }} refl refl

sort_hash-lt_example :
    (s : ℕ) × (t : ℕ) × (sort_hash one_item 0x5235 ≡ done s)
    × (sort_hash one_item 0x1236 ≡ done t)
    × (s < t)
sort_hash-lt_example =
    sort_hash-lt one_item (omega arith) 0x5235 0x1236 (omega arith) (omega arith)
      (inr (refl, omega arith))

abbrev at_item : Qfi
at_item = record { run = 35; current = 35 }

qfi_next-forward_example :
    (false ≡ true → 35 < 144)
    × (false ≡ false → qfi_end one_item (record { run = 144; current = 144 }) ≡ true)
unfolding qfi_next count_ones is_extension_or_counter
qfi_next-forward_example =
    qfi_next-forward one_item at_item {more = false} {qfi' = record { run = 144; current = 144 }}
      refl

-- The item of one filter, and the filter that it is written to.
abbrev taken : Source
taken = record { qfi = at_item; finger = record { rem = 5; ext = 0; ext_len = 0 }; count = 1 }

abbrev copied : Qf
copied = elim (merge_insert empty_qf 35 35 taken.finger taken.count) [
  | done (i, qf) ↦ qf
  | abort ↦ empty_qf
  | spin ↦ empty_qf
]

load-merge_insert_example : load copied at_item ≡ done taken
unfolding load merge_insert qfi_end field
load-merge_insert_example =
    load-merge_insert one_item empty_qf at_item 35 35 {s = taken} {behind = 36} {qfc' = copied}
      (omega arith) refl (omega arith) refl (λ j p. (refl, refl)) (omega arith) refl
