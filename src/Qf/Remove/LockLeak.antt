-- ===== src/Qf/Remove/LockLeak.antt =====
-- The locks of _remove (src/gqf.c) when the bucket holds nothing.
use ski_rental_adaptive_qf.Prelude.{ℕ, ◌≡◌, refl, ap, ◌∙◌, ◌≢◌, Bool, true, false, done}
use ski_rental_adaptive_qf.Qf.{Flags, Qf}
use ski_rental_adaptive_qf.Qf.Bits.{is_occupied}
use ski_rental_adaptive_qf.Qf.Locks.{qf_lock}
use ski_rental_adaptive_qf.Qf.Query.{hash_bucket_index}
use ski_rental_adaptive_qf.Qf.Locks.Exclusion.{takes, lock-Taken, lock_excludes}
use ski_rental_adaptive_qf.Qf.Remove.{RemoveOutputs, freed, remove}

-- A removal under locks for a hash whose bucket holds nothing returns 0 and keeps its locks: no later
-- attempt on a bucket that needs one of them gets it, by any call.
pub remove-leaks :
    (qf : Qf) (hash other j : ℕ) (out : RemoveOutputs) (small : Bool) (flags flags' : Flags)
    {qf' qf'' : Qf}
    → flags.no_lock ≡ false
    → qf_lock qf (hash_bucket_index qf hash) false flags ≡ done (true, qf')
    → is_occupied qf (hash_bucket_index qf hash) ≡ false
    → takes (hash_bucket_index qf hash) false j ≡ true
    → takes other small j ≡ true
    → (remove qf hash out flags ≡ done (freed 0, out, qf'))
      × (qf_lock qf' other small flags' ≢ done (true, qf''))
unfolding remove is_occupied
remove-leaks qf hash other j out small flags flags' {qf'} n l o t t' =
    let (same, w) = lock-Taken qf (hash_bucket_index qf hash) false flags l in
    let kept : qf'.occupieds (hash_bucket_index qf hash) ≡ false =
      ap (λ (r : Qf). r.occupieds (hash_bucket_index qf hash)) same ∙ o in
    (
      rw (n, l) (rw kept refl),
      lock_excludes qf (hash_bucket_index qf hash) other j false small flags flags' l t t',
    )
