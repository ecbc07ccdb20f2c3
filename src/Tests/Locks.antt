-- ===== src/Tests/Locks.antt =====
-- The theorems on the region locks, on a filter with all locks free.
use ski_rental_adaptive_qf.Prelude.{◌≡◌, refl, ◌≢◌, true, false, done}
use ski_rental_adaptive_qf.Qf.{Qf}
use ski_rental_adaptive_qf.Qf.Bits.{is_occupied}
use ski_rental_adaptive_qf.Qf.Locks.{qf_lock, qf_unlock}
use ski_rental_adaptive_qf.Qf.Locks.Exclusion.{unlock-lock, lock_excludes}
use ski_rental_adaptive_qf.Qf.Remove.{RemoveOutputs, freed, remove}
use ski_rental_adaptive_qf.Qf.Remove.LockLeak.{remove-leaks}
use ski_rental_adaptive_qf.Tests.Filters.{empty_qf, try_lock, state_of}

-- The filter with the locks of bucket 3 taken.
abbrev locked : Qf
locked = state_of (qf_lock empty_qf 3 true try_lock)

unlock-lock_example : qf_unlock locked 3 true ≡ empty_qf
unfolding qf_lock
unlock-lock_example = unlock-lock empty_qf 3 true try_lock {qf' = locked} refl

lock_excludes_example : qf_lock locked 7 false try_lock ≢ done (true, empty_qf)
unfolding qf_lock
lock_excludes_example =
    lock_excludes empty_qf 3 7 0 true false try_lock try_lock {qf' = locked} {qf'' = empty_qf} refl
      refl refl

abbrev outputs : RemoveOutputs
outputs = record { ret_hash = 0; ret_hash_len = 0 }

remove-leaks_example :
    (remove empty_qf 0x1235 outputs try_lock
      ≡ done (freed 0, outputs, state_of (qf_lock empty_qf 35 false try_lock)))
    × (qf_lock (state_of (qf_lock empty_qf 35 false try_lock)) 7 true try_lock
        ≢ done (true, empty_qf))
unfolding qf_lock is_occupied
remove-leaks_example =
    remove-leaks empty_qf 0x1235 7 0 outputs true try_lock try_lock
      {qf' = state_of (qf_lock empty_qf 35 false try_lock)} {qf'' = empty_qf} refl refl refl refl
      refl
