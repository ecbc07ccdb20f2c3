-- ===== src/Qf/Locks/Exclusion.antt =====
-- qf_lock and qf_unlock of src/gqf.c against the locks that a call needs.
use ski_rental_adaptive_qf.Prelude.{
  ℕ, ◌+◌, ◌≡◌, ap, ◌∙◌, fun_ext, ◌≢◌, Bool, true, false, ◌&&◌, ◌||◌, not, arith, ◌==◌,
  if◌then◌else◌, Outcome, done, >>=-eq-done,
}
use ski_rental_adaptive_qf.Qf.{Flags, Qf}
use ski_rental_adaptive_qf.Qf.Locks.{
  qf_spin_unlock, qf_lock_small, qf_lock_large, qf_lock, qf_unlock, region, near_start, near_end,
}

-- The locks that a call takes for a bucket.
abbrev pub takes : ℕ → Bool → ℕ → Bool
takes hbi small j =
    (j == region hbi)
    || ((j == region hbi + 1) && (not small || near_end hbi))
    || ((j + 1 == region hbi) && (not small && near_start hbi))

small_fail :
    (locks : ℕ → Bool) (hbi : ℕ) (flag : Flags) {l : ℕ → Bool}
    → qf_lock_small locks hbi flag ≡ done (false, l)
    → (j : ℕ) → l j ≡ locks j
unfolding qf_lock_small
small_fail locks hbi flag h j = ground arith

large_fail :
    (locks : ℕ → Bool) (hbi : ℕ) (flag : Flags) {l : ℕ → Bool}
    → qf_lock_large locks hbi flag ≡ done (false, l)
    → (j : ℕ) → l j ≡ locks j
unfolding qf_lock_large
large_fail locks hbi flag h j = ground arith

-- A call that took its locks found all of them free, and holds them now.
abbrev pub Taken : (ℕ → Bool) → (ℕ → Bool) → ℕ → Bool → ℕ → Type 0
Taken locks l hbi small j =
    (takes hbi small j ≡ true → locks j ≡ false)
    × (l j ≡ (if takes hbi small j then true else locks j))

small_win :
    (locks : ℕ → Bool) (hbi : ℕ) (flag : Flags) {l : ℕ → Bool}
    → qf_lock_small locks hbi flag ≡ done (true, l)
    → (j : ℕ) → Taken locks l hbi true j
unfolding qf_lock_small
small_win locks hbi flag h j = (λ t. ground arith, ground arith)

large_win :
    (locks : ℕ → Bool) (hbi : ℕ) (flag : Flags) {l : ℕ → Bool}
    → qf_lock_large locks hbi flag ≡ done (true, l)
    → (j : ℕ) → Taken locks l hbi false j
unfolding qf_lock_large
large_win locks hbi flag h j = (λ t. ground arith, ground arith)

attempt : Qf → ℕ → Bool → Flags → Outcome (Bool × (ℕ → Bool))
attempt qf hbi small flag =
    if small then qf_lock_small qf.locks hbi flag else qf_lock_large qf.locks hbi flag

qf_lock-attempt :
    (qf : Qf) (hbi : ℕ) (small : Bool) (flag : Flags) {b : Bool} {qf' : Qf}
    → qf_lock qf hbi small flag ≡ done (b, qf')
    → (l : ℕ → Bool) × (attempt qf hbi small flag ≡ done (b, l)) × (qf' ≡ record qf { locks = l })
unfolding qf_lock attempt
qf_lock-attempt qf hbi small flag h =
    let (r, e, g) =
      >>=-eq-done
        (if small then qf_lock_small qf.locks hbi flag else qf_lock_large qf.locks hbi flag)
        (λ (p : Bool × (ℕ → Bool)). done (p.0, record qf { locks = p.1 })) h in
    (r.1, ground arith, ground arith)

-- A lock attempt that fails leaves the filter as it was: what it took it has given back.
pub lock_or_unchanged :
    (qf : Qf) (hbi : ℕ) (small : Bool) (flag : Flags) {qf' : Qf}
    → qf_lock qf hbi small flag ≡ done (false, qf')
    → qf' ≡ qf
unfolding attempt
lock_or_unchanged qf hbi true flag h =
    let (l, e, g) = qf_lock-attempt qf hbi true flag h in
    g ∙ (λ i. record qf { locks = fun_ext (small_fail qf.locks hbi flag e) i })
lock_or_unchanged qf hbi false flag h =
    let (l, e, g) = qf_lock-attempt qf hbi false flag h in
    g ∙ (λ i. record qf { locks = fun_ext (large_fail qf.locks hbi flag e) i })

-- A call that took its locks found them all free and holds them now; no other lock has changed, nor
-- anything else of the filter.
pub lock-Taken :
    (qf : Qf) (hbi : ℕ) (small : Bool) (flag : Flags) {qf' : Qf}
    → qf_lock qf hbi small flag ≡ done (true, qf')
    → (qf' ≡ record qf { locks = qf'.locks }) × ((j : ℕ) → Taken qf.locks qf'.locks hbi small j)
unfolding attempt
lock-Taken qf hbi true flag h =
    let (l, e, g) = qf_lock-attempt qf hbi true flag h in
    let w = small_win qf.locks hbi flag e in (rw g, λ j. rw g (w j))
lock-Taken qf hbi false flag h =
    let (l, e, g) = qf_lock-attempt qf hbi false flag h in
    let w = large_win qf.locks hbi flag e in (rw g, λ j. rw g (w j))

pub unlocked :
    (locks : ℕ → Bool) (hbi : ℕ) (small : Bool) (qf' : Qf)
    → ((j : ℕ) → Taken locks qf'.locks hbi small j)
    → (j : ℕ) → (qf_unlock qf' hbi small).locks j ≡ locks j
unfolding qf_unlock qf_spin_unlock
unlocked locks hbi true qf' w j = ground (arith, w j)
unlocked locks hbi false qf' w j = ground (arith, w j)

-- qf_unlock undoes a qf_lock that took its locks.
pub unlock-lock :
    (qf : Qf) (hbi : ℕ) (small : Bool) (flag : Flags) {qf' : Qf}
    → qf_lock qf hbi small flag ≡ done (true, qf')
    → qf_unlock qf' hbi small ≡ qf
unfolding qf_unlock
unlock-lock qf hbi small flag {qf'} h =
    let (same, w) = lock-Taken qf hbi small flag h in
    (λ i. record qf' { locks = fun_ext (unlocked qf.locks hbi small qf' w) i })
    ∙ ap (λ (r : Qf). record r { locks = qf.locks }) same

-- While a call holds its locks, no other call takes them for a bucket of the same region, in either
-- mode; nor does a call for a bucket that needs one of them otherwise.
pub lock_excludes :
    (qf : Qf) (hbi other j : ℕ) (small small' : Bool) (flag flag' : Flags) {qf' qf'' : Qf}
    → qf_lock qf hbi small flag ≡ done (true, qf')
    → takes hbi small j ≡ true
    → takes other small' j ≡ true
    → qf_lock qf' other small' flag' ≢ done (true, qf'')
lock_excludes qf hbi other j small small' flag flag' {qf'} h t t' h' =
    let a = (lock-Taken qf hbi small flag h).1 j in
    let b = (lock-Taken qf' other small' flag' h').1 j in ground arith
