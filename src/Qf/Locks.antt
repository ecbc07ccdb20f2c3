-- ===== src/Qf/Locks.antt =====
-- The region locks: qf_spin_lock, qf_spin_unlock, qf_lock and qf_unlock of src/gqf.c.
pub mod Exclusion
use ski_rental_adaptive_qf.Prelude.{
  ℕ, ◌+◌, ◌-◌, ◌/◌, ◌%◌, ◌^◌, Bool, true, false, ◌&&◌, not, leb, if◌then◌else◌, Outcome, done, spin,
  ◌>>=◌, update,
}
use ski_rental_adaptive_qf.Qf.{Qf, Flags}

-- `NUM_SLOTS_TO_LOCK` and `CLUSTER_SIZE`
abbrev pub num_slots_to_lock : ℕ
num_slots_to_lock = 2 ^ 16

abbrev pub cluster_size : ℕ
cluster_size = 2 ^ 14

-- `__sync_lock_test_and_set(lock, 1)` takes a free lock. With the wait flag a held lock is waited
-- for, which no thread but the holder's can end.
unfoldable pub qf_spin_lock : (ℕ → Bool) → ℕ → Flags → Outcome (Bool × (ℕ → Bool))
qf_spin_lock locks lock flag =
    if not flag.wait_for_lock
    then done (not (locks lock), update locks lock true)
    else if locks lock
    then spin
    else done (true, update locks lock true)

unfoldable pub qf_spin_unlock : (ℕ → Bool) → ℕ → ℕ → Bool
qf_spin_unlock locks lock = update locks lock false

-- The lock of a region and those of its two neighbours, as far as a call takes them.
abbrev pub region : ℕ → ℕ
region hash_bucket_index = hash_bucket_index / num_slots_to_lock

abbrev pub near_end : ℕ → Bool
near_end hash_bucket_index =
    leb (num_slots_to_lock - hash_bucket_index % num_slots_to_lock) cluster_size

abbrev pub near_start : ℕ → Bool
near_start hash_bucket_index =
    leb num_slots_to_lock hash_bucket_index
    && leb (hash_bucket_index % num_slots_to_lock) cluster_size

-- A lock that could not be taken: what was taken before it is given back.
abbrev Attempt : Type 0
Attempt = Outcome (Bool × (ℕ → Bool))

-- `small`: the region's lock, and the next one if the bucket lies near the region's end.
unfoldable pub qf_lock_small : (ℕ → Bool) → ℕ → Flags → Outcome (Bool × (ℕ → Bool))
unfolding qf_spin_lock qf_spin_unlock
qf_lock_small locks hbi flag = do
  (got, locks₁) ← qf_spin_lock locks (region hbi) flag
  if not got
      then done (false, locks₁)
      else if near_end hbi
      then (qf_spin_lock locks₁ (region hbi + 1) flag >>= λ (next, locks₂).
          if not next
          then done (false, qf_spin_unlock locks₂ (region hbi))
          else done (true, locks₂))
      else done (true, locks₁)

-- Otherwise: the lock before, if the bucket lies near the region's start, the region's and the next.
unfoldable pub qf_lock_before : (ℕ → Bool) → ℕ → Flags → Outcome (Bool × (ℕ → Bool))
unfolding qf_spin_lock
qf_lock_before locks hbi flag =
    if near_start hbi then qf_spin_lock locks (region hbi - 1) flag else done (true, locks)

abbrev unlock_before : (ℕ → Bool) → ℕ → ℕ → Bool
unlock_before locks hbi = if near_start hbi then qf_spin_unlock locks (region hbi - 1) else locks

unfoldable pub qf_lock_large : (ℕ → Bool) → ℕ → Flags → Outcome (Bool × (ℕ → Bool))
unfolding qf_lock_before qf_spin_unlock
qf_lock_large locks hbi flag = do
  (before, locks₁) ← qf_lock_before locks hbi flag
  if not before
      then done (false, locks₁)
      else (qf_spin_lock locks₁ (region hbi) flag >>= λ (got, locks₂).
          if not got
          then done (false, unlock_before locks₂ hbi)
          else (qf_spin_lock locks₂ (region hbi + 1) flag >>= λ (next, locks₃).
              if not next
              then done (false, unlock_before (qf_spin_unlock locks₃ (region hbi)) hbi)
              else done (true, locks₃)))

unfoldable pub qf_lock : Qf → ℕ → Bool → Flags → Outcome (Bool × Qf)
unfolding qf_lock_small qf_lock_large
qf_lock qf hbi small flag = do
  (got, locks) ←
      (if small then qf_lock_small qf.locks hbi flag else qf_lock_large qf.locks hbi flag)
  done (got, record qf { locks = locks })

unfoldable pub qf_unlock : Qf → ℕ → Bool → Qf
unfolding qf_spin_unlock
qf_unlock qf hbi small = record qf {
  locks =
      if small
      then qf_spin_unlock
          (if near_end hbi then qf_spin_unlock qf.locks (region hbi + 1) else qf.locks) (region hbi)
      else unlock_before (qf_spin_unlock (qf_spin_unlock qf.locks (region hbi + 1)) (region hbi))
          hbi;
}

-- `if (GET_NO_LOCK(flags) != QF_NO_LOCK) qf_unlock(...)`
unfoldable pub unlock_unless : Flags → Qf → ℕ → Bool → Qf
unlock_unless flag qf hbi small = if flag.no_lock then qf else qf_unlock qf hbi small
