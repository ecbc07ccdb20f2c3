-- ===== src/Qf/Query/Ends.antt =====
-- The rounds that the walk of qf_query (src/gqf.c) takes.
use ski_rental_adaptive_qf.Prelude.{
  ℕ, zero, suc, ◌+◌, ◌*◌, ◌≤◌, ◌<◌, ◌≡◌, refl, ◌≢◌, inl, inr, Bool, true, false, not, arith, ltb,
  ◌==◌, if◌then◌else◌, Bool-cases, Outcome, done, abort, spin, ◌>>=◌, assert,
}
use ski_rental_adaptive_qf.Qf.{Flags, Qf, hash_key, rounds}
use ski_rental_adaptive_qf.Qf.Bits.{
  is_extension, is_counter, is_extension_or_counter, is_occupied, is_runend, get_slot,
}
use ski_rental_adaptive_qf.Qf.Runs.{skip_extensions}
use ski_rental_adaptive_qf.Qf.SlotInfo.{read_slots, get_slot_info}
use ski_rental_adaptive_qf.Qf.Query.{
  hash_remainder, hash_bucket_index, hash_ext, query_start, query_loop, qf_query,
}

-- All slots are in the blocks, and no slot behind the last one is marked as an extension.
abbrev pub NoStray : Qf → Type 0
NoStray qf = (qf.xnslots ≤ 64 * qf.nblocks) × ((i : ℕ) → qf.xnslots ≤ i → qf.extensions i ≡ false)

bind-ne_spin {ℓ κ} :
    {A : Type ℓ} {B : Type κ} (m : Outcome A) (f : A → Outcome B)
    → m ≢ spin
    → ((a : A) → m ≡ done a → f a ≢ spin)
    → (m >>= f) ≢ spin
bind-ne_spin (done a) f h k e = k a refl e
bind-ne_spin abort f h k e = cc
bind-ne_spin spin f h k e = h refl

branch-ne_spin {ℓ} :
    {A : Type ℓ} (t : Bool) (m n : Outcome A)
    → (t ≡ true → m ≢ spin)
    → (t ≡ false → n ≢ spin)
    → elim t [ true ↦ m | false ↦ n ] ≢ spin
branch-ne_spin true m n h k = h refl
branch-ne_spin false m n h k = k refl

get_slot-ne_spin : (qf : Qf) (i : ℕ) → get_slot qf i ≢ spin
unfolding get_slot
get_slot-ne_spin qf i = ground arith

skip_extensions-ends :
    (fuel : ℕ) (qf : Qf) (i : ℕ)
    → NoStray qf
    → 0 < fuel
    → qf.xnslots < fuel + i
    → (j : ℕ) × (skip_extensions fuel qf i ≡ done j) × (i ≤ j)
unfolding skip_extensions is_extension_or_counter
skip_extensions-ends zero qf i ok p h = absurd (omega arith)
skip_extensions-ends (suc fuel) qf i (b, clear) p h = elim (Bool-cases (qf.extensions i)) [
  | inl ext ↦
      let inside : i < qf.xnslots = grind (arith, clear i) in
      let (j, e, le) =
        skip_extensions-ends fuel qf (i + 1) (b, clear) (omega arith) (omega arith) in
      (j, ground arith, omega arith)
  | inr plain ↦ (i, ground arith, omega arith)
]

read_slots-ends :
    (test : Qf → ℕ → Bool) (fuel : ℕ) (qf : Qf) (index curr acc : ℕ)
    → NoStray qf
    → ((j : ℕ) → test qf j ≡ true → qf.extensions j ≡ true)
    → 0 < fuel
    → qf.xnslots < fuel + curr
    → read_slots test fuel qf index curr acc ≢ spin
unfolding read_slots
read_slots-ends test zero qf index curr acc ok t p h = absurd (omega arith)
read_slots-ends test (suc fuel) qf index curr acc (b, clear) t p h =
    branch-ne_spin (test qf curr) _ _
      (λ more.
        let inside : curr < qf.xnslots = grind (arith, clear curr, t curr more) in
        bind-ne_spin (get_slot qf curr) _ (get_slot-ne_spin qf curr) (λ slot e.
          read_slots-ends test fuel qf index (curr + 1) _ (b, clear) t (omega arith) (omega arith)))
      (λ stop e. cc)

assert-ne_spin : (t : Bool) → assert t ≢ spin
assert-ne_spin true e = cc
assert-ne_spin false e = cc

extension : (qf : Qf) (j : ℕ) → is_extension qf j ≡ true → qf.extensions j ≡ true
unfolding is_extension
extension qf j t = ground arith

counter : (qf : Qf) (j : ℕ) → is_counter qf j ≡ true → qf.extensions j ≡ true
unfolding is_counter
counter qf j t = ground arith

get_slot_info-ends : (qf : Qf) (i : ℕ) → NoStray qf → get_slot_info qf i ≢ spin
unfolding get_slot_info
get_slot_info-ends qf i (b, clear) =
    bind-ne_spin (assert (not (is_extension_or_counter qf i))) _ (assert-ne_spin _) (λ u e.
      bind-ne_spin (read_slots is_extension (rounds qf) qf (i + 1) (i + 1) 0) _
        (read_slots-ends is_extension (rounds qf) qf (i + 1) (i + 1) 0 (b, clear)
          (λ j t. extension qf j t) (omega arith) (omega arith))
        (λ (ext, curr) e.
          bind-ne_spin
            (read_slots is_counter (rounds qf) qf curr curr (if is_counter qf curr then 0 else 1)) _
            (read_slots-ends is_counter (rounds qf) qf curr curr _ (b, clear)
              (λ j t. counter qf j t) (omega arith) (omega arith))
            (λ (count, stop) e g. cc)))

query_loop-ends :
    (fuel : ℕ) (qf : Qf) (hash i : ℕ)
    → NoStray qf
    → 0 < fuel
    → qf.xnslots < fuel + i
    → query_loop fuel qf hash i ≢ spin
unfolding query_loop
query_loop-ends zero qf hash i ok p h = absurd (omega arith)
query_loop-ends (suc fuel) qf hash i (b, clear) p h =
    bind-ne_spin (get_slot qf i) _ (get_slot-ne_spin qf i) (λ slot e.
      branch-ne_spin (slot == hash_remainder qf hash) _ _
        (λ t. bind-ne_spin (get_slot_info qf i) _ (get_slot_info-ends qf i (b, clear)) (λ info e.
          branch-ne_spin (hash_ext qf hash info.ext_slots == info.ext) _ _ (λ t e. cc)
            (λ f.
              branch-ne_spin (is_runend qf i) _ _ (λ t e. cc)
                (λ f.
                  branch-ne_spin (ltb (i + 1 + (info.ext_slots + info.count_slots)) qf.xnslots) _ _
                    (λ t.
                      query_loop-ends fuel qf hash (i + 1 + (info.ext_slots + info.count_slots))
                        (b, clear) (ground (arith, t)) (omega arith))
                    (λ f e. cc)))))
        (λ f.
          branch-ne_spin (is_runend qf i) _ _ (λ t e. cc)
            (λ f.
              let (j, run, le) =
                skip_extensions-ends (rounds qf) qf (i + 1) (b, clear) (omega arith)
                  (omega arith) in
              rw run (
                branch-ne_spin (ltb j qf.xnslots) _ _
                  (λ t. query_loop-ends fuel qf hash j (b, clear) (ground (arith, t)) (omega arith))
                  (λ f e. cc)))))

-- qf_query returns or fails an assertion, and does not loop: the walk over the run ends within the
-- slots of the filter wherever the run starts, if no slot behind the last one is marked as an
-- extension.
pub qf_query-ends :
    (qf : Qf) (key : ℕ) (flags : Flags) {start : ℕ}
    → NoStray qf
    → query_start qf (hash_bucket_index qf (hash_key qf key flags)) ≡ done start
    → qf_query qf key flags ≢ spin
unfolding qf_query
qf_query-ends qf key flags {start} (b, clear) run =
    elim (Bool-cases (is_occupied qf (hash_bucket_index qf (hash_key qf key flags)))) [
      | inl taken ↦
          rw (taken, run)
            (query_loop-ends (rounds qf) qf (hash_key qf key flags) start (b, clear) (omega arith)
              (omega arith))
      | inr free ↦ rw free (λ e. cc)
    ]
