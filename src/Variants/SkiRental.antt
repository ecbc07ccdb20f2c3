-- ===== src/Variants/SkiRental.antt =====
-- The ski-rental rule of SkiQF (src/variants/skiqf.hpp) over repeated false positives of one key.
use ski_rental_adaptive_qf.Prelude.{
  ℕ, zero, suc, ◌+◌, ◌%◌, ◌^◌, ◌<◌, ◌≡◌, refl, true, false, some, arith, ltb, if◌then◌else◌, lt→ltb,
  Outcome, done, ◌>>=◌, >>=-done, if-true, if-false, ℤ, pos, negsuc,
}
use ski_rental_adaptive_qf.Qf.Bits.{slot_width}
use ski_rental_adaptive_qf.Qf.Slots.{byte-fits}
use ski_rental_adaptive_qf.Qf.{Qf}
use ski_rental_adaptive_qf.Variants.{
  key_is_hash_flag, QueryResult, with_count, query_filter, Filter, cannot_adapt, fetch_and_adapt,
  count_up, ski_adapt,
}
use ski_rental_adaptive_qf.Qf.Extend.CountUp.{
  IsCounted, counter_set, insert_and_extend-one, get_count-counter_set,
}
use ski_rental_adaptive_qf.Qf.Query.Counts.{qf_get_count_using_ll_table_with_index}
use ski_rental_adaptive_qf.Variants.ReverseMaps.{ReverseMap}
use native.Mathlib.Nat.{mod-eq_of_lt}
use ski_rental_adaptive_qf.Qf.Adapt.{Ret}
use ski_rental_adaptive_qf.Qf.Extend.{insert_and_extend}

-- `if (adaptRetCode == -1) continue; else adaptCount += adaptRetCode;` of the benchmark's loop.
abbrev pub count_adapts : ℕ → ℤ → ℕ
count_adapts adapts (pos n) = adapts + n
count_adapts adapts (negsuc n) = adapts

module _ (M : ReverseMap) where
  -- A query for a key that the filter holds and the database does not: queryFilter, and adapt if it
  -- found the key.
  unfoldable pub false_positive :
      Filter M → ℕ → QueryResult → ℕ → Outcome (ℤ × QueryResult × Filter M)
  unfolding query_filter ski_adapt
  false_positive f key result unset = do
    found ← query_filter f.qf key result unset
    if found.key_present
        then (ski_adapt M f key found >>= λ (ret, f'). done (ret, found, f'))
        else done (pos 0, found, f)

  -- n such queries for one key, with the number of adaptations so far.
  unfoldable pub false_positives : ℕ → ℕ → Filter M → ℕ → QueryResult → ℕ → Outcome (ℕ × Filter M)
  unfolding false_positive
  false_positives zero adapts f key result unset = done (adapts, f)
  false_positives (suc n) adapts f key result unset =
      false_positive f key result unset >>= λ (ret, found, f').
      false_positives n (count_adapts adapts ret) f' key found unset

  -- A key that a query finds with count c, in a filter that may adapt: the item has a counter slot and
  -- no extension, and the counts up to the break-even count fit the slot and the byte.
  pub record IsRepeated (f : Filter M) (key unset index rank c : ℕ) : Type 0 where
    pub room : f.qf.noccupied_slots < f.full_point
    pub free : (j : ℕ) → f.qf.locks j ≡ false
    pub counted : IsCounted f.qf index c
    pub fits_slot : f.break_even_count < 2 ^ f.qf.bits_per_slot
    pub fits_byte : f.break_even_count < 256
    pub inside : index + 1 < f.qf.xnslots
    pub positive : 0 < c
    pub found :
        qf_get_count_using_ll_table_with_index f.qf key unset key_is_hash_flag
        ≡ done (some (c, index), rank)

  -- The result of such a query.
  abbrev pub reported : ℕ → ℕ → ℕ → ℕ → QueryResult
  reported key index rank c = record {
    key_present = true;
    minirun_rank = rank;
    minirun_count = c;
    hash = key;
    hash_index = index;
  }

  -- The filter with the count c for the item.
  abbrev pub recounted : Filter M → ℕ → ℕ → Filter M
  recounted f index c = record f { qf = counter_set f.qf index c f.qf.locks }

  query_filter-reported :
      (f : Filter M) (key unset index rank c : ℕ) (result : QueryResult)
      → c < 256
      → IsRepeated f key unset index rank c
      → query_filter f.qf key result unset ≡ done (reported key index rank c)
  unfolding query_filter with_count
  query_filter-reported f key unset index rank c result small s =
      let byte : c % 256 ≡ c = mod-eq_of_lt small in
      let some_count : ltb 0 (c % 256) ≡ true = rw byte (lt→ltb 0 c s.positive) in
      >>=-done (qf_get_count_using_ll_table_with_index f.qf key unset key_is_hash_flag) _ s.found
        (rw (some_count, byte) refl)

  below_break_even :
      (f : Filter M) (key unset index rank c : ℕ) (result : QueryResult)
      → c < f.break_even_count
      → IsRepeated f key unset index rank c
      → (false_positive f key result unset
          ≡ done (pos 0, reported key index rank c, recounted f index (c + 1)))
        × IsRepeated (recounted f index (c + 1)) key unset index rank (c + 1)
  unfolding false_positive ski_adapt count_up
  below_break_even f key unset index rank c result lt s =
      let q =
        query_filter-reported f key unset index rank c result (omega (arith, s.fits_byte)) s in
      let full : cannot_adapt M f ≡ false = ground (arith, s.room) in
      let below : ltb c f.break_even_count ≡ true = lt→ltb c f.break_even_count lt in
      let fits : c + 1 < 2 ^ slot_width f.qf (index + 1) =
        byte-fits f.qf (index + 1) (c + 1) (omega (arith, s.fits_slot))
          (omega (arith, s.fits_byte)) in
      let word : c + 1 < 2 ^ 64 = omega (arith, s.fits_byte) in
      let up =
        insert_and_extend-one f.qf index key c key_is_hash_flag s.free refl refl s.counted fits word
          s.inside in
      let (found, counted) =
        get_count-counter_set f.qf key unset key_is_hash_flag {rank = rank} s.counted fits word
          s.inside s.found in
      (
        >>=-done (query_filter f.qf key result unset) _ q (
            >>=-done (ski_adapt M f key (reported key index rank c)) _
              (if-false (cannot_adapt M f) _ full (
                if-true (ltb c f.break_even_count) _ below (
                  >>=-done (insert_and_extend f.qf index key 1 key key_is_hash_flag)
                    (λ (p : Ret × Qf). done (pos 0, record f { qf = p.1 })) up refl)))
              refl),
        record {
          room = s.room;
          free = s.free;
          counted = counted;
          fits_slot = s.fits_slot;
          fits_byte = s.fits_byte;
          inside = s.inside;
          positive = omega arith;
          found = found;
        },
      )

  at_break_even :
      (f : Filter M) (key unset index rank c : ℕ) (result : QueryResult)
      → c ≡ f.break_even_count
      → IsRepeated f key unset index rank c
      → false_positive f key result unset ≡ (
          fetch_and_adapt M f key (reported key index rank c) >>= λ (ret, f').
          done (ret, reported key index rank c, f'))
  unfolding false_positive ski_adapt
  at_break_even f key unset index rank c result e s =
      let q =
        query_filter-reported f key unset index rank c result (omega (arith, s.fits_byte)) s in
      let full : cannot_adapt M f ≡ false = ground (arith, s.room) in
      let reached : ltb c f.break_even_count ≡ false = ground (arith, e) in
      >>=-done (query_filter f.qf key result unset) _ q (rw (full, reached) refl)

  -- SkiQF on a key whose queries are false positives, from count c of its item: the first
  -- break_even_count - c of them only count, without an adaptation and without another filter slot,
  -- and the next one fetches the key behind the fingerprint and adapts.
  pub ski_rental :
      (n adapts : ℕ) (f : Filter M) (key unset index rank c : ℕ) (result : QueryResult)
      → IsRepeated f key unset index rank c
      → c + n ≡ f.break_even_count
      → (f' : Filter M) × (false_positives n adapts f key result unset ≡ done (adapts, f'))
        × (f'.reverse_map ≡ f.reverse_map)
        × (f'.qf.noccupied_slots ≡ f.qf.noccupied_slots)
        × IsRepeated f' key unset index rank f.break_even_count
        × ((found : QueryResult)
            → false_positive f' key found unset ≡ (
                fetch_and_adapt M f' key (reported key index rank f.break_even_count)
                >>= λ (ret, f''). done (ret, reported key index rank f.break_even_count, f'')))
  unfolding false_positives
  ski_rental zero adapts f key unset index rank c result s e =
      let c' : c ≡ f.break_even_count = omega arith in
      let s' : IsRepeated f key unset index rank f.break_even_count = rw c' at s in
      (
        f,
        refl,
        refl,
        refl,
        s',
        λ found. at_break_even f key unset index rank f.break_even_count found refl s',
      )
  ski_rental (suc n) adapts f key unset index rank c result s e =
      let (step, s') = below_break_even f key unset index rank c result (omega arith) s in
      let (f', run, m, o, s'', next) =
        ski_rental n adapts (recounted f index (c + 1)) key unset index rank (c + 1)
          (reported key index rank c) s' (omega arith) in
      let same : adapts + 0 ≡ adapts = omega arith in
      (f', >>=-done (false_positive f key result unset) _ step (rw same run), m, o, s'', next)
