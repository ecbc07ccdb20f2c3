-- ===== src/Variants/Load/Fills.antt =====
-- How many keys bulkLoad (src/variants/base_adaptive_filter.hpp) reads, and that its loop ends.
use ski_rental_adaptive_qf.Prelude.{
  ℕ, zero, suc, ◌+◌, ◌≤◌, ◌<◌, ◌≡◌, refl, sym, ap, ◌∙◌, inl, inr, Bool, true, false, Option, none,
  some, map, arith, ltb, ltb→lt, Bool-cases, Outcome, done, ◌>>=◌, >>=-eq-done, >>=-cong, all-bind,
  all-done,
}
use ski_rental_adaptive_qf.Qf.{Qf}
use ski_rental_adaptive_qf.Variants.ReverseMaps.{ReverseMap}
use ski_rental_adaptive_qf.Variants.{Filter}
use ski_rental_adaptive_qf.Variants.Load.{load_flags, store, load_key, load_loop, bulk_load}
use ski_rental_adaptive_qf.Qf.Adapt.{Ret, value, err_no_space, err_couldnt_lock}
use ski_rental_adaptive_qf.Qf.Insert.LlTable.{InsertResult, qf_insert_using_ll_table}
use ski_rental_adaptive_qf.Qf.Insert.LlCounts.{Grows, qf_insert_using_ll_table-Grows}

module _ (M : ReverseMap) (resize : Qf → ℕ → Outcome (Option Qf)) where
  -- What one round leaves: a filter with one slot more in use.
  OneMore : Filter M → Option (Filter M) → Type 0
  OneMore f none = Unit
  OneMore f (some f') =
      (f'.qf.noccupied_slots ≡ f.qf.noccupied_slots + 1) × (f'.qf.auto_resize ≡ false)

  loaded-OneMore :
      (sort : Bool) (f : Filter M) (key : ℕ) (ret : Ret) (result' : InsertResult) (qf' : Qf)
      → f.qf.auto_resize ≡ false
      → Grows f.qf ret qf'
      → OneMore f (elim ret [
        | value n ↦ elim (store M resize sort f.reverse_map result' key) [
          | some map ↦ some (record f { qf = qf'; reverse_map = map })
          | none ↦ none
        ]
        | err_no_space ↦ none
        | err_couldnt_lock ↦ none
      ])
  unfolding OneMore
  loaded-OneMore sort f key (value n) result' qf' off g =
      with_map (store M resize sort f.reverse_map result' key)
    where
      with_map :
          (o : Option M.State)
          → OneMore f
              (elim o [ some map ↦ some (record f { qf = qf'; reverse_map = map }) | none ↦ none ])
      with_map (some map) = (g.0, g.1 ∙ off)
      with_map none = tt
  loaded-OneMore sort f key err_no_space result' qf' off g = tt
  loaded-OneMore sort f key err_couldnt_lock result' qf' off g = tt

  load_key-OneMore :
      (sort : Bool) (f : Filter M) (key : ℕ) (result : InsertResult)
      → f.qf.auto_resize ≡ false
      → (next : Option (Filter M)) → load_key M resize sort f key result ≡ done next
      → OneMore f next
  unfolding load_key
  load_key-OneMore sort f key result off =
      all-bind (OneMore f) (qf_insert_using_ll_table resize f.qf key 1 result load_flags) _ (λ r e.
        all-done (OneMore f) _ (
          loaded-OneMore sort f key r.0 r.1 r.2 off
            (qf_insert_using_ll_table-Grows resize f.qf key result load_flags off refl e)))

  -- What the loop of bulkLoad returns from a filter on, where i keys have been read.
  Loaded : Filter M → ℕ → ℕ → Option (Filter M) × ℕ → Type 0
  Loaded f num_keys i (some f', n) =
      (f'.qf.noccupied_slots ≡ num_keys) × (f.qf.noccupied_slots + n ≡ num_keys + i)
  Loaded f num_keys i (none, n) = f.qf.noccupied_slots + n ≤ num_keys + i

  load_loop-Loaded :
      (fuel : ℕ) (sort : Bool) (f : Filter M) (keys : ℕ → ℕ) (num_keys i : ℕ)
      (result : InsertResult) (r : Option (Filter M) × ℕ)
      → f.qf.auto_resize ≡ false
      → f.qf.noccupied_slots ≤ num_keys
      → load_loop M resize fuel sort f keys num_keys i result ≡ done r
      → Loaded f num_keys i r
  unfolding load_loop Loaded OneMore
  load_loop-Loaded zero sort f keys num_keys i result r off le e = cc
  load_loop-Loaded (suc fuel) sort f keys num_keys i result r off le e =
      elim (Bool-cases (ltb f.qf.noccupied_slots num_keys)) [
        | inl more ↦
            let run = rw (more, load_loop) at e in
            let (next, q, rest) = >>=-eq-done (load_key M resize sort f (keys i) result) _ run in
            step (λ f' o l g. load_loop-Loaded fuel sort f' keys num_keys (i + 1) result r o l g)
              (ltb→lt f.qf.noccupied_slots num_keys more) next
              (load_key-OneMore sort f (keys i) result off next q) rest
        | inr enough ↦
            let run = rw (enough, load_loop) at e in
            let full : f.qf.noccupied_slots ≡ num_keys = ground (arith, le) in
            all-done (Loaded f num_keys i) (some f, i) (full, omega (arith, full)) r run
      ]
    where
      further :
          (f' : Filter M)
          → f'.qf.noccupied_slots ≡ f.qf.noccupied_slots + 1
          → (r : Option (Filter M) × ℕ) → Loaded f' num_keys (i + 1) r
          → Loaded f num_keys i r
      further f' g (some f'', n) l = (l.0, omega (arith, l.1, g))
      further f' g (none, n) l = omega (arith, l, g)

      step :
          ((f' : Filter M)
            → f'.qf.auto_resize ≡ false
            → f'.qf.noccupied_slots ≤ num_keys
            → load_loop M resize fuel sort f' keys num_keys (i + 1) result ≡ done r
            → Loaded f' num_keys (i + 1) r)
          → f.qf.noccupied_slots < num_keys
          → (next : Option (Filter M)) → OneMore f next
          → elim next [
            | some f' ↦ load_loop M resize fuel sort f' keys num_keys (i + 1) result
            | none ↦ done (none, i + 1)
          ]
            ≡ done r
          → Loaded f num_keys i r
      step ih lt (some f') (g, off') rest = further f' g r (ih f' off' (omega (arith, g)) rest)
      step ih lt none u rest = all-done (Loaded f num_keys i) (none, i + 1) (omega arith) r rest

  -- How the loop goes on from a round.
  abbrev go_on :
      ℕ
      → Bool
      → (ℕ → ℕ)
      → ℕ
      → ℕ
      → InsertResult
      → Option (Filter M)
      → Outcome (Option (Filter M) × ℕ)
  go_on fuel sort keys num_keys i result (some f') =
      load_loop M resize fuel sort f' keys num_keys (i + 1) result
  go_on fuel sort keys num_keys i result none = done (none, i + 1)

  load_loop-more :
      (fuel : ℕ) (sort : Bool) (f : Filter M) (keys : ℕ → ℕ) (num_keys i : ℕ)
      (result : InsertResult)
      → ltb f.qf.noccupied_slots num_keys ≡ true
      → load_loop M resize (suc fuel) sort f keys num_keys i result ≡ (
          load_key M resize sort f (keys i) result >>= λ next. elim next [
            | some f' ↦ load_loop M resize fuel sort f' keys num_keys (i + 1) result
            | none ↦ done (none, i + 1)
          ])
  unfolding load_loop
  load_loop-more fuel sort f keys num_keys i result more = rw (more, load_loop) refl

  load_loop-enough :
      (fuel : ℕ) (sort : Bool) (f : Filter M) (keys : ℕ → ℕ) (num_keys i : ℕ)
      (result : InsertResult)
      → ltb f.qf.noccupied_slots num_keys ≡ false
      → load_loop M resize (suc fuel) sort f keys num_keys i result ≡ done (some f, i)
  unfolding load_loop
  load_loop-enough fuel sort f keys num_keys i result enough = rw (enough, load_loop) refl

  -- The loop of bulkLoad comes to the same result with any fuel of more rounds than there are slots
  -- left to fill, in a filter without automatic resizing.
  pub load_loop-fuel :
      (fuel extra : ℕ) (sort : Bool) (f : Filter M) (keys : ℕ → ℕ) (num_keys i : ℕ)
      (result : InsertResult)
      → f.qf.auto_resize ≡ false
      → num_keys < fuel + f.qf.noccupied_slots
      → 0 < fuel
      → load_loop M resize (fuel + extra) sort f keys num_keys i result
        ≡ load_loop M resize fuel sort f keys num_keys i result
  unfolding OneMore
  load_loop-fuel zero extra sort f keys num_keys i result off room some_fuel = absurd (omega arith)
  load_loop-fuel (suc fuel) extra sort f keys num_keys i result off room some_fuel =
      let e : suc fuel + extra ≡ suc (fuel + extra) = omega arith in
      rw e (elim (Bool-cases (ltb f.qf.noccupied_slots num_keys)) [
        | inl more ↦
            let lt = ltb→lt f.qf.noccupied_slots num_keys more in
            load_loop-more (fuel + extra) sort f keys num_keys i result more
            ∙ >>=-cong (load_key M resize sort f (keys i) result) refl (λ next q.
              same next (load_key-OneMore sort f (keys i) result off next q) (λ f' g o.
                load_loop-fuel fuel extra sort f' keys num_keys (i + 1) result o (omega (arith, g))
                  (omega arith)))
            ∙ sym (load_loop-more fuel sort f keys num_keys i result more)
        | inr enough ↦
            load_loop-enough (fuel + extra) sort f keys num_keys i result enough
            ∙ sym (load_loop-enough fuel sort f keys num_keys i result enough)
      ])
    where
      same :
          (next : Option (Filter M))
          → OneMore f next
          → ((f' : Filter M)
              → f'.qf.noccupied_slots ≡ f.qf.noccupied_slots + 1
              → f'.qf.auto_resize ≡ false
              → load_loop M resize (fuel + extra) sort f' keys num_keys (i + 1) result
                ≡ load_loop M resize fuel sort f' keys num_keys (i + 1) result)
          → go_on (fuel + extra) sort keys num_keys i result next
            ≡ go_on fuel sort keys num_keys i result next
      same (some f') (g, o) h = h f' g o
      same none u h = refl

  -- If bulkLoad returns 0 on a filter without automatic resizing and with at most num_keys slots in use,
  -- then exactly num_keys slots are in use, and it has read one key for each slot that was missing.
  pub bulk_load-fills :
      (sort : Bool) (f : Filter M) (keys : ℕ → ℕ) (num_keys : ℕ) (result : InsertResult)
      {f' : Filter M} {n : ℕ}
      → f.qf.auto_resize ≡ false
      → f.qf.noccupied_slots ≤ num_keys
      → bulk_load M resize sort f keys num_keys result ≡ done (some f', n)
      → (f'.qf.noccupied_slots ≡ num_keys) × (f.qf.noccupied_slots + n ≡ num_keys)
  unfolding bulk_load Loaded
  bulk_load-fills sort f keys num_keys result {f'} {n} off le e =
      let (r, q, g) =
        >>=-eq-done (load_loop M resize (num_keys + 1) sort f keys num_keys 0 result) _ e in
      closed r (load_loop-Loaded (num_keys + 1) sort f keys num_keys 0 result r off le q)
        (sym (ap done (at_end r)) ∙ g)
    where
      Filled : Option (Filter M) × ℕ → Type 0
      Filled (some f'', m) =
          (f''.qf.noccupied_slots ≡ num_keys) × (f.qf.noccupied_slots + m ≡ num_keys)
      Filled (none, m) = Unit

      committed : Option (Filter M) × ℕ → Option (Filter M) × ℕ
      committed (some f'', m) =
          (some (record f'' { reverse_map = M.commit_fingerprints f''.reverse_map }), m)
      committed (none, m) = (none, m)

      at_end :
          (r : Option (Filter M) × ℕ)
          → (
            elim r.0 as (λ o. Option (Filter M)) [
              | some f'' ↦ some (record f'' { reverse_map = M.commit_fingerprints f''.reverse_map })
              | none ↦ none
            ],
            r.1,
          )
            ≡ committed r
      at_end (some f'', m) = refl
      at_end (none, m) = refl

      closed :
          (r : Option (Filter M) × ℕ)
          → Loaded f num_keys 0 r
          → done (committed r) ≡ done (some f', n)
          → Filled (some f', n)
      closed (some f'', m) l g =
          all-done Filled (some _, m) (l.0, omega (arith, l.1)) (some f', n) g
      closed (none, m) l g = all-done Filled (none, m) tt (some f', n) g
