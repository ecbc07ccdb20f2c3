-- ===== src/Qf/Insert/Locks.antt =====
-- insert of src/gqf.c and the region locks.
use ski_rental_adaptive_qf.Prelude.{
  all-bind, all-done, all-if, all-assert, ℕ, zero, suc, ◌+◌, ◌-◌, ◌≡◌, refl, ap, ◌∙◌, inl, inr,
  Bool, true, false, ◌&&◌, not, arith, ltb, ◌==◌, if◌then◌else◌, Bool-cases, Outcome, done, ◌>>=◌,
  assert, >>=-eq-done,
}
use ski_rental_adaptive_qf.Qf.Extend.{insert_second}
use ski_rental_adaptive_qf.Hash.{shr, low_bits}
use ski_rental_adaptive_qf.Qf.{Flags, Qf, rounds, hash_key}
use ski_rental_adaptive_qf.Qf.Bits.{set_slot, might_be_empty, is_occupied, is_extension_or_counter}
use ski_rental_adaptive_qf.Qf.Locks.{qf_lock, qf_unlock, unlock_unless}
use ski_rental_adaptive_qf.Qf.Locks.Exclusion.{unlock-lock, lock_or_unchanged}
use ski_rental_adaptive_qf.Qf.Shifts.{shift_remainders, shift_runends, insert_one_slot}
use ski_rental_adaptive_qf.Qf.Adapt.{Ret, value}
use ski_rental_adaptive_qf.Qf.SlotInfo.{get_slot_info}
use ski_rental_adaptive_qf.Qf.Query.{fingerprint_bits, hash_remainder}
use ski_rental_adaptive_qf.Qf.Runs.{run_end, run_start}
use ski_rental_adaptive_qf.Qf.Extend.{
  rewrite_counter, append_counter, increment_counter, insert_and_extend,
}
use ski_rental_adaptive_qf.Qf.Insert.{
  Outputs, Walk, place, existing, ran_off, insert_bucket, add_count, insert_empty_slot,
  insert_new_run, insert_in_run, insert_walk, insert_body, insert,
}

all-walk {ℓ} :
    {B : Type ℓ} (P : B → Type 0) (f : ℕ → ℕ → Bool → Outputs → Outcome B)
    (g h : Outputs → Outcome B)
    → ((at current : ℕ) (last : Bool) (o : Outputs) (b : B) → f at current last o ≡ done b → P b)
    → ((o : Outputs) (b : B) → g o ≡ done b → P b)
    → ((o : Outputs) (b : B) → h o ≡ done b → P b)
    → (walk : Walk) (b : B)
    → elim walk [
      | ran_off o ↦ h o
      | existing o ↦ g o
      | place at current last o ↦ f at current last o
    ]
      ≡ done b
    → P b
all-walk P f g h u v w (place at current last o) = u at current last o
all-walk P f g h u v w (existing o) = v o
all-walk P f g h u v w (ran_off o) = w o

set_slot-locks : (qf : Qf) (i v : ℕ) {qf' : Qf} → set_slot qf i v ≡ done qf' → qf'.locks ≡ qf.locks
unfolding set_slot
set_slot-locks qf i v h = ground arith

shift_runends-locks :
    (qf : Qf) (first last distance : ℕ) {qf' : Qf}
    → shift_runends qf first last distance ≡ done qf'
    → qf'.locks ≡ qf.locks
unfolding shift_runends
shift_runends-locks qf first last distance h = ground arith

insert_one_slot-locks :
    (qf : Qf) (target index v : ℕ) {b : Bool} {qf' : Qf}
    → insert_one_slot qf target index v ≡ done (b, qf')
    → qf'.locks ≡ qf.locks
unfolding insert_one_slot shift_remainders
insert_one_slot-locks qf target index v h = grind (arith, set_slot-locks, shift_runends-locks)

rewrite_counter-locks :
    (n : ℕ) (qf : Qf) (at new_count : ℕ) {c : ℕ} {qf' : Qf}
    → rewrite_counter n qf at new_count ≡ done (c, qf')
    → qf'.locks ≡ qf.locks
unfolding rewrite_counter
rewrite_counter-locks zero qf at new_count h = ground arith
rewrite_counter-locks (suc n) qf at new_count h =
    let (q, e, g) =
      >>=-eq-done (set_slot qf at (low_bits new_count qf.bits_per_slot))
        (λ q. rewrite_counter n q (at + 1) (shr new_count qf.bits_per_slot)) h in
    rewrite_counter-locks n q (at + 1) (shr new_count qf.bits_per_slot) g
    ∙ set_slot-locks qf at (low_bits new_count qf.bits_per_slot) e

append_counter-locks :
    (fuel : ℕ) (qf : Qf) (target at new_count : ℕ) {qf' : Qf}
    → append_counter fuel qf target at new_count ≡ done qf'
    → qf'.locks ≡ qf.locks
unfolding append_counter
append_counter-locks zero qf target at new_count h = ground arith
append_counter-locks (suc fuel) qf target at new_count h =
    grind (arith, append_counter-locks fuel, insert_one_slot-locks)

increment_counter-locks :
    (qf : Qf) (index hash count : ℕ) {qf' : Qf}
    → increment_counter qf index hash count ≡ done qf'
    → qf'.locks ≡ qf.locks
unfolding increment_counter
increment_counter-locks qf index hash count {qf' = qf'} =
    all-bind same (get_slot_info qf index) _
      (λ info e.
        all-bind same (rewrite_counter info.count_slots qf (index + 1 + info.ext) _) _ (λ c e.
          all-bind same (append_counter 64 c.1 _ _ c.0) _ (λ qf₂ e'. all-done same _ (
            append_counter-locks 64 c.1 _ _ c.0 e'
            ∙ rewrite_counter-locks info.count_slots qf (index + 1 + info.ext) _ e))))
      qf'
  where
    same : Qf → Type 0
    same q = q.locks ≡ qf.locks

-- `QF_KEY_IS_HASH | QF_NO_LOCK`
abbrev quiet : Flags
quiet = record { no_lock = true; try_once_lock = false; wait_for_lock = false; key_is_hash = true }

-- The call that adds to the count of an item takes no locks.
same_hash-locks :
    (qf : Qf) (index hash count : ℕ) (r : Ret × Qf)
    → insert_and_extend qf index hash count hash quiet ≡ done r
    → r.1.locks ≡ qf.locks
unfolding insert_and_extend unlock_unless hash_key
same_hash-locks qf index hash count =
    all-bind same
      (assert (low_bits hash (fingerprint_bits qf) == low_bits hash (fingerprint_bits qf)))
      (λ u. branch >>= λ r. done r)
      (λ u e. all-bind same branch (λ r. done r) (λ r e. all-done same r (counted r e)))
  where
    branch : Outcome (Ret × Qf)
    branch =
        if hash == hash
        then (increment_counter qf index hash count >>= λ q. done (value 0, q))
        else insert_second qf index hash count hash quiet

    same : Ret × Qf → Type 0
    same r = r.1.locks ≡ qf.locks

    counted : (r : Ret × Qf) → branch ≡ done r → same r
    counted =
        all-if same (hash == hash) _ _
          (λ t.
            all-bind same (increment_counter qf index hash count) _
              (λ q e. all-done same _ (increment_counter-locks qf index hash count e)))
          (λ f. absurd (ground arith))

pub add_count-locks :
    (qf : Qf) (index hash count : ℕ) {qf' : Qf}
    → add_count qf index hash count ≡ done qf'
    → qf'.locks ≡ qf.locks
unfolding add_count
add_count-locks qf index hash count {qf' = qf'} =
    all-if same (ltb 1 count) _ _
      (λ t.
        all-bind same (insert_and_extend qf index hash (count - 1) hash quiet) (λ r. done r.1)
          (λ r e. all-done same r.1 (same_hash-locks qf index hash (count - 1) r e)))
      (λ f. all-done same qf refl) qf'
  where
    same : Qf → Type 0
    same q = q.locks ≡ qf.locks

pub insert_empty_slot-locks :
    (qf : Qf) (bucket remainder n : ℕ) {qf' : Qf}
    → insert_empty_slot qf bucket remainder n ≡ done qf'
    → qf'.locks ≡ qf.locks
unfolding insert_empty_slot
insert_empty_slot-locks qf bucket remainder n h = grind (arith, set_slot-locks)

pub insert_new_run-locks :
    (qf : Qf) (bucket start remainder n : ℕ) {qf' : Qf}
    → insert_new_run qf bucket start remainder n ≡ done qf'
    → qf'.locks ≡ qf.locks
unfolding insert_new_run
insert_new_run-locks qf bucket start remainder n h = grind (arith, insert_one_slot-locks)

pub insert_in_run-locks :
    (qf : Qf) (bucket at current : ℕ) (last : Bool) (remainder n : ℕ) {qf' : Qf}
    → insert_in_run qf bucket at current last remainder n ≡ done qf'
    → qf'.locks ≡ qf.locks
unfolding insert_in_run
insert_in_run-locks qf bucket at current last remainder n h = grind (arith, insert_one_slot-locks)

insert_body-locks :
    (qf : Qf) (hash count : ℕ) (flags : Flags) (out : Outputs) {ret : Ret} {out' : Outputs}
    {qf' : Qf}
    → insert_body qf hash count flags out ≡ done (ret, out', qf')
    → qf'.locks ≡ qf.locks
unfolding insert_body
insert_body-locks qf hash count flags out {ret = ret} {out' = out'} {qf' = qf'} =
    all-bind same (run_end qf bucket) _
      (λ runend_index e.
        all-if same (might_be_empty qf bucket && (runend_index == bucket)) _ _
          (λ t.
            all-bind same (insert_empty_slot qf bucket remainder 1) _
              (λ qf₁ e. counted qf₁ bucket (insert_empty_slot-locks qf bucket remainder 1 e) _ _))
          (λ f. all-bind same (run_start qf bucket) _ (λ s e.
            all-if same (not (is_occupied qf bucket)) _ _
              (λ t.
                all-bind same (insert_new_run qf bucket s remainder 1) _ (λ qf₁ e.
                  counted qf₁ bucket (insert_new_run-locks qf bucket s remainder 1 e) _ _))
              (λ f. all-assert same (not (is_extension_or_counter qf s)) _ (
                all-bind same (insert_walk (rounds qf) qf hash flags s out) _ (λ walk e.
                  all-walk same _ _ _
                    (λ at current last o.
                      all-bind same (insert_in_run qf bucket at current last remainder 1) _
                        (λ qf₁ e.
                          counted qf₁ at
                            (insert_in_run-locks qf bucket at current last remainder 1 e) _ _))
                    (λ o. all-done same _ refl) (λ o. all-done same _ refl) walk))))))
      (ret, out', qf')
  where
    bucket : ℕ
    bucket = insert_bucket qf hash

    remainder : ℕ
    remainder = hash_remainder qf hash

    same : Ret × Outputs × Qf → Type 0
    same r = r.2.locks ≡ qf.locks

    counted :
        (qf₁ : Qf) (at : ℕ)
        → qf₁.locks ≡ qf.locks
        → (ret : Ret) (o : Outputs) (b : Ret × Outputs × Qf)
        → (add_count qf₁ at hash count >>= λ qf₂. done (ret, o, qf₂)) ≡ done b
        → same b
    counted qf₁ at e ret o =
        all-bind same (add_count qf₁ at hash count) _
          (λ qf₂ e'. all-done same _ (add_count-locks qf₁ at hash count e' ∙ e))

pub unlocked :
    (flags : Flags) (qf₁ qf₂ : Qf) (hbi : ℕ)
    → qf₂.locks ≡ qf₁.locks
    → (unlock_unless flags qf₂ hbi true).locks ≡ (unlock_unless flags qf₁ hbi true).locks
unfolding unlock_unless qf_unlock
unlocked flags qf₁ qf₂ hbi e = elim (Bool-cases flags.no_lock) [
  | inl n ↦ rw n e
  | inr l ↦ rw l (ap (λ l. (qf_unlock (record qf₁ { locks = l }) hbi true).locks) e)
]

pub taken :
    (qf : Qf) (hbi : ℕ) (flags : Flags) (r : Bool × Qf)
    → (if flags.no_lock then done (true, qf) else qf_lock qf hbi true flags) ≡ done r
    → (r.0 ≡ false → r.1.locks ≡ qf.locks)
      × (r.0 ≡ true → (unlock_unless flags r.1 hbi true).locks ≡ qf.locks)
unfolding unlock_unless
taken qf hbi flags =
    all-if Fine flags.no_lock _ _ (λ n. all-done Fine (true, qf) (λ f. cc, λ t. rw n refl))
      (λ l r h. (
        λ f.
            ap (λ (q : Qf). q.locks)
              (lock_or_unchanged qf hbi true flags {qf' = r.1} (named r f h)),
        λ t.
            rw l
              (ap (λ (q : Qf). q.locks) (unlock-lock qf hbi true flags {qf' = r.1} (named r t h))),
      ))
  where
    Fine : Bool × Qf → Type 0
    Fine r =
        (r.0 ≡ false → r.1.locks ≡ qf.locks)
        × (r.0 ≡ true → (unlock_unless flags r.1 hbi true).locks ≡ qf.locks)

    named :
        (r : Bool × Qf) {b : Bool}
        → r.0 ≡ b
        → qf_lock qf hbi true flags ≡ done r
        → qf_lock qf hbi true flags ≡ done (b, r.1)
    named r e h = h ∙ ap (λ (b : Bool). done (b, r.1)) e

-- insert leaves the region locks as it found them, on every way out.
pub insert-locks :
    (qf : Qf) (hash count : ℕ) (flags : Flags) (out : Outputs) {ret : Ret} {out' : Outputs}
    {qf' : Qf}
    → insert qf hash count flags out ≡ done (ret, out', qf')
    → qf'.locks ≡ qf.locks
unfolding insert
insert-locks qf hash count flags out {ret = ret} {out' = out'} {qf' = qf'} =
    all-bind same
      (if flags.no_lock then done (true, qf) else qf_lock qf (insert_bucket qf hash) true flags) _
      (λ r e.
        all-if same (not r.0) _ _
          (λ t. all-done same _ ((taken qf (insert_bucket qf hash) flags r e).0 (ground arith)))
          (λ f. all-bind same (insert_body r.1 hash count flags out) _ (λ x e'. all-done same _ (
            unlocked flags r.1 x.2 (insert_bucket qf hash)
              (insert_body-locks r.1 hash count flags out e')
            ∙ (taken qf (insert_bucket qf hash) flags r e).1 (ground arith)))))
      (ret, out', qf')
  where
    same : Ret × Outputs × Qf → Type 0
    same r = r.2.locks ≡ qf.locks
