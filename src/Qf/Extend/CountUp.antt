-- ===== src/Qf/Extend/CountUp.antt =====
-- One more count for an item that has a counter slot: insert_and_extend (src/gqf.c) on one hash.
use ski_rental_adaptive_qf.Prelude.{
  ℕ, zero, suc, ◌+◌, ◌-◌, ◌^◌, ◌<◌, ◌≡◌, refl, ap, ◌∙◌, fun_ext, ◌≢◌, inl, inr, Bool, true, false,
  not, some, arith, update, ◌==◌, if◌then◌else◌, ==_iff, Bool-cases, Outcome, done, ◌>>=◌, assert,
  >>=-eq-done, >>=-cong, >>=-done, assert-true, if-true,
}
use ski_rental_adaptive_qf.Hash.{add64, shr, low_bits}
use ski_rental_adaptive_qf.Qf.{Flags, Qf, hash_key, rounds}
use ski_rental_adaptive_qf.Qf.Bits.{
  is_occupied, is_extension, is_counter, is_extension_or_counter, get_slot,
}
use ski_rental_adaptive_qf.Qf.SlotInfo.{SlotInfo, get_slot_info}
use ski_rental_adaptive_qf.Qf.Query.Counts.{
  count_index_loop, qf_get_count_using_ll_table_with_index,
}
use ski_rental_adaptive_qf.Row.{Row}
use ski_rental_adaptive_qf.Qf.SlotInfo.{read_slots}
use ski_rental_adaptive_qf.Qf.Locks.{
  qf_spin_lock, qf_lock_large, qf_lock_before, near_start, region, qf_lock, qf_unlock,
  unlock_unless,
}
use ski_rental_adaptive_qf.Qf.Locks.Exclusion.{lock-Taken, unlocked}
use ski_rental_adaptive_qf.Qf.Adapt.{value}
use ski_rental_adaptive_qf.Qf.Query.{hash_bucket_index, fingerprint_bits, query_start}
use ski_rental_adaptive_qf.Qf.Metadata.{with_contents, query_start-with_contents}
use ski_rental_adaptive_qf.Qf.Slots.{slot_width-le, slot_set, get_slot-set_slot, set_slot-inside}
use ski_rental_adaptive_qf.Qf.Bits.{slot_width, slots_end}
use ski_rental_adaptive_qf.Qf.Extend.{
  rewrite_counter, increment_counter, insert_second, insert_and_extend,
}
use ski_rental_adaptive_qf.Qf.Extend.Misplaced.{append_none}
use ski_rental_adaptive_qf.Qf.Extend.Recount.{get_slot_info-at, count_index_loop-again}
use native.Mathlib.Nat.{pow-le-pow_right, div-eq_of_lt, mod-eq_of_lt}

-- An item in a slot has a count in one counter slot behind it, and no extension.
abbrev pub IsCounted : Qf → ℕ → ℕ → Type 0
IsCounted qf index c =
    get_slot_info qf index ≡ done (record { ext = 0; ext_slots = 0; count = c; count_slots = 1 })

-- The filter with v in the counter slot, and one element more.
abbrev pub counter_set : Qf → ℕ → ℕ → (ℕ → Bool) → Qf
counter_set qf index v l = with_contents qf (slot_set qf (index + 1) v) (qf.nelts + 1) l

get_slot-counter_set :
    (qf : Qf) (index v : ℕ) (l : ℕ → Bool) (j : ℕ)
    → v < 2 ^ slot_width qf (index + 1)
    → index + 1 < qf.xnslots
    → get_slot (counter_set qf index v l) j ≡ (if index + 1 == j then done v else get_slot qf j)
unfolding get_slot
get_slot-counter_set qf index v l j small inside =
    get_slot-set_slot qf (index + 1) v j small (set_slot-inside qf (index + 1) v small inside)

increment_counter-one :
    (qf : Qf) (index hash c : ℕ)
    → IsCounted qf index c
    → c + 1 < 2 ^ slot_width qf (index + 1)
    → c + 1 < 2 ^ 64
    → index + 1 < qf.xnslots
    → increment_counter qf index hash 1 ≡ done (counter_set qf index (c + 1) qf.locks)
unfolding increment_counter rewrite_counter
increment_counter-one qf index hash c inf small word inside =
    let sum : add64 c 1 ≡ c + 1 = omega arith in
    let fits : c + 1 < 2 ^ qf.bits_per_slot =
      omega (arith, small, pow-le-pow_right {n = 2} (omega arith) (slot_width-le qf (index + 1))) in
    let low : low_bits (c + 1) qf.bits_per_slot ≡ c + 1 = mod-eq_of_lt fits in
    let gone : shr (c + 1) qf.bits_per_slot ≡ 0 = div-eq_of_lt fits in
    let zero_ext : index + 1 + 0 ≡ index + 1 = omega arith in
    rw (inf, sum, zero_ext, low, set_slot-inside qf (index + 1) (c + 1) small inside)
      (ap (λ (o : Outcome Qf). o >>= λ (q : Qf). done (record q { nelts = q.nelts + 1 }))
        (append_none _ (hash_bucket_index qf hash) _ _ gone))

read_slots-locks :
    (test : Qf → ℕ → Bool) (fuel : ℕ) (qf : Qf) (l : ℕ → Bool) (from curr acc : ℕ)
    → ((i : ℕ) → test (record qf { locks = l }) i ≡ test qf i)
    → read_slots test fuel (record qf { locks = l }) from curr acc
      ≡ read_slots test fuel qf from curr acc
unfolding read_slots get_slot
read_slots-locks test zero qf l from curr acc t = refl
read_slots-locks test (suc fuel) qf l from curr acc t =
    let ih = λ (acc : ℕ). read_slots-locks test fuel qf l from (curr + 1) acc t in
    grind (arith, t curr, ih)

pub get_slot_info-locks :
    (qf : Qf) (l : ℕ → Bool) (i : ℕ)
    → get_slot_info (record qf { locks = l }) i ≡ get_slot_info qf i
unfolding get_slot_info is_extension is_counter is_extension_or_counter
get_slot_info-locks qf l i =
    let one = read_slots-locks is_extension (rounds qf) qf l (i + 1) (i + 1) 0 (λ j. refl) in
    >>=-cong (assert (not (is_extension_or_counter qf i))) refl (λ t e.
      >>=-cong (read_slots is_extension (rounds qf) (record qf { locks = l }) (i + 1) (i + 1) 0) one
        (λ p e.
          ap
            (λ m. m >>= λ q. done (record {
              ext = p.0;
              ext_slots = p.1 - (i + 1);
              count = q.0;
              count_slots = q.1 - p.1;
            }))
            (read_slots-locks is_counter (rounds qf) qf l p.1 p.1 _ (λ j. refl))))

==_refl : (n : ℕ) → (n == n) ≡ true
==_refl n = (==_iff n n).1 refl

spin_lock-free :
    (locks : ℕ → Bool) (i : ℕ) (flags : Flags)
    → locks i ≡ false
    → qf_spin_lock locks i flags ≡ done (true, update locks i true)
unfolding qf_spin_lock
spin_lock-free locks i flags free = ground arith

-- Free locks are taken at once, in any mode of waiting.
lock-free :
    (qf : Qf) (index : ℕ) (flags : Flags)
    → ((j : ℕ) → qf.locks j ≡ false)
    → (qf₁ : Qf) × (qf_lock qf index false flags ≡ done (true, qf₁))
unfolding qf_lock qf_lock_large qf_lock_before
lock-free qf index flags free = elim (Bool-cases (near_start index)) [
  | inl near ↦
      let k : ℕ = region index in
      let pred : k - 1 ≢ k = λ e. grind (arith, near) in
      let l₁ : ℕ → Bool = update qf.locks (k - 1) true in
      let l₂ : ℕ → Bool = update l₁ k true in
      let first = spin_lock-free qf.locks (k - 1) flags (free (k - 1)) in
      let second = spin_lock-free l₁ k flags (ground (arith, free k)) in
      let third = spin_lock-free l₂ (k + 1) flags (ground (arith, free (k + 1))) in
      (record qf { locks = update l₂ (k + 1) true }, rw (near, first, second, third) refl)
  | inr far ↦
      let k : ℕ = region index in
      let l₂ : ℕ → Bool = update qf.locks k true in
      let second = spin_lock-free qf.locks k flags (free k) in
      let third = spin_lock-free l₂ (k + 1) flags (ground (arith, free (k + 1))) in
      (record qf { locks = update l₂ (k + 1) true }, rw (far, second, third) refl)
]

-- insert_and_extend on one hash, where it gets its locks.
insert_and_extend-locked :
    (qf q₁ : Qf) (index hash count : ℕ) (flags : Flags) {q₂ : Qf}
    → flags.no_lock ≡ false
    → flags.key_is_hash ≡ true
    → qf_lock qf index false flags ≡ done (true, q₁)
    → increment_counter q₁ index hash count ≡ done q₂
    → insert_and_extend qf index hash count hash flags ≡ done (value 0, qf_unlock q₂ index false)
unfolding insert_and_extend unlock_unless hash_key
insert_and_extend-locked qf q₁ index hash count flags {q₂ = q₂} nl kh got step =
    let locked : (if flags.no_lock then done (true, qf) else qf_lock qf index false flags)
        ≡ done (true, q₁) =
      rw nl got in
    let key : ℕ = hash_key qf hash flags in
    let same_key : key ≡ hash = rw kh refl in
    let counted : increment_counter q₁ index key count ≡ done q₂ = rw same_key step in
    let last : done (value 0, unlock_unless flags q₂ index false)
        ≡ done (value 0, qf_unlock q₂ index false) =
      rw nl refl in
    >>=-done (if flags.no_lock then done (true, qf) else qf_lock qf index false flags) _ locked (
      assert-true (low_bits key (fingerprint_bits qf) == low_bits key (fingerprint_bits qf))
        (==_refl _)
        (>>=-done
          (if key == key
            then (increment_counter q₁ index key count >>= λ q. done (value 0, q))
            else insert_second q₁ index key count key flags)
          _
          (if-true (key == key) _ (==_refl key)
            (>>=-done (increment_counter q₁ index key count) _ counted refl))
          last))

-- insert_and_extend on an item with a counter, where the locks are free: the count goes up by one, and
-- nothing else changes but the number of elements.
pub insert_and_extend-one :
    (qf : Qf) (index hash c : ℕ) (flags : Flags)
    → ((j : ℕ) → qf.locks j ≡ false)
    → flags.no_lock ≡ false
    → flags.key_is_hash ≡ true
    → IsCounted qf index c
    → c + 1 < 2 ^ slot_width qf (index + 1)
    → c + 1 < 2 ^ 64
    → index + 1 < qf.xnslots
    → insert_and_extend qf index hash 1 hash flags
      ≡ done (value 0, counter_set qf index (c + 1) qf.locks)
unfolding qf_unlock slot_width slots_end
insert_and_extend-one qf index hash c flags free nl kh inf small word inside =
    let (qf₁, got) = lock-free qf index flags free in
    let (same, taken) = lock-Taken qf index false flags got in
    let l : ℕ → Bool = qf₁.locks in
    let inf₁ : IsCounted (record qf { locks = l }) index c = get_slot_info-locks qf l index ∙ inf in
    let step =
      increment_counter-one (record qf { locks = l }) index hash c inf₁ small word inside in
    let back : (qf_unlock (counter_set qf index (c + 1) l) index false)
        ≡ counter_set qf index (c + 1) qf.locks =
      λ i. record (counter_set qf index (c + 1) l) {
        locks = fun_ext (unlocked qf.locks index false (counter_set qf index (c + 1) l) taken) i;
      } in
    let got' : qf_lock qf index false flags ≡ done (true, record qf { locks = l }) =
      got ∙ ap (λ (q : Qf). done (true, q)) same in
    insert_and_extend-locked qf (record qf { locks = l }) index hash 1 flags nl kh got' step
    ∙ ap (λ (q : Qf). done (value 0, q)) back

get_slot_info-first :
    (qf : Qf) (i : ℕ) {info : SlotInfo}
    → get_slot_info qf i ≡ done info
    → is_extension_or_counter qf i ≡ false
unfolding get_slot_info
get_slot_info-first qf i h =
    let (_, e, _) = >>=-eq-done (assert (not (is_extension_or_counter qf i))) _ h in
    grind (arith, e)

-- The count query then finds the item again, with one more.
pub get_count-counter_set :
    (qf : Qf) (key r : ℕ) (flags : Flags) {c index rank : ℕ}
    → IsCounted qf index c
    → c + 1 < 2 ^ slot_width qf (index + 1)
    → c + 1 < 2 ^ 64
    → index + 1 < qf.xnslots
    → qf_get_count_using_ll_table_with_index qf key r flags ≡ done (some (c, index), rank)
    → (qf_get_count_using_ll_table_with_index (counter_set qf index (c + 1) qf.locks) key r flags
        ≡ done (some (c + 1, index), rank))
      × IsCounted (counter_set qf index (c + 1) qf.locks) index (c + 1)
unfolding qf_get_count_using_ll_table_with_index hash_key is_occupied
get_count-counter_set qf key r flags {c} {index} {rank} inf small word inside h =
    let hash : ℕ = hash_key qf key flags in
    let remainders : Row = slot_set qf (index + 1) (c + 1) in
    let slots = get_slot-counter_set qf index (c + 1) qf.locks in
    let same : (j : ℕ)
        → j ≢ index + 1
        → get_slot (counter_set qf index (c + 1) qf.locks) j ≡ get_slot qf j =
      λ j ne. slots j small inside ∙ ground arith in
    let first = get_slot_info-first qf index inf in
    let new_slot : get_slot (counter_set qf index (c + 1) qf.locks) (index + 1) ≡ done (c + 1) =
      slots (index + 1) small inside
      ∙ if-true (index + 1 == index + 1) _ (==_refl (index + 1)) refl in
    let (now, _) =
      get_slot_info-at qf remainders (qf.nelts + 1) qf.locks index first same (c + 1) inf refl refl
        word new_slot in
    let again = λ (s : ℕ).
      count_index_loop-again qf remainders (qf.nelts + 1) qf.locks index first same (rounds qf) hash
        0 s (c + 1) {c = c} {rk = rank} inf refl refl word new_slot in
    let bucket : ℕ = hash_bucket_index qf hash in
    (
      elim (Bool-cases (is_occupied qf bucket)) [
        | inl taken ↦
            let run = rw taken at h in
            let (s, e, g) =
              >>=-eq-done (query_start qf bucket) (λ s. count_index_loop (rounds qf) qf hash 0 s)
                run in
            let start =
              query_start-with_contents qf remainders (qf.nelts + 1) qf.locks bucket ∙ e in
            rw taken (
              >>=-done (query_start (counter_set qf index (c + 1) qf.locks) bucket) _ start
                (again s g))
        | inr free ↦ let no_item = rw free at h in cc
      ],
      now,
    )
