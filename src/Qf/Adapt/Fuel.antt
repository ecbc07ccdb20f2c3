-- ===== src/Qf/Adapt/Fuel.antt =====
-- The rounds of the loop of adapt (src/gqf.c).
use ski_rental_adaptive_qf.Prelude.{
  ℕ, zero, suc, ◌+◌, ◌≤◌, ◌<◌, ◌≡◌, refl, ap, ◌∙◌, Bool, true, false, Option, none, some, arith,
  Outcome, done, abort, spin, ◌>>=◌,
}
use ski_rental_adaptive_qf.Qf.{Qf}
use ski_rental_adaptive_qf.Qf.Adapt.{Adapted, extend_slot, after_round, adapt_loop}
use ski_rental_adaptive_qf.Qf.Adapt.Separate.{extend_slot-width}

bind-congr {ℓ κ} :
    {A : Type ℓ} {B : Type κ} (m : Outcome A) (f g : A → Outcome B)
    → ((a : A) → m ≡ done a → f a ≡ g a)
    → (m >>= f) ≡ (m >>= g)
bind-congr (done a) f g h = h a refl
bind-congr abort f g h = refl
bind-congr spin f g h = refl

after_round-congr :
    (again : Bool) (recur recur' : Qf → Outcome Adapted) (finish : Qf → Adapted) (failed : Adapted)
    (o : Option Qf)
    → (again ≡ true → (qf' : Qf) → o ≡ some qf' → recur qf' ≡ recur' qf')
    → after_round again recur finish failed o ≡ after_round again recur' finish failed o
unfolding after_round
after_round-congr again recur recur' finish failed none h = refl
after_round-congr true recur recur' finish failed (some qf') h = h refl qf' refl
after_round-congr false recur recur' finish failed (some qf') h = refl

-- The loop comes to the same result with any fuel that brings the fingerprint to 64 bits: it needs
-- no more rounds than the bits that the fingerprint has left to 64, and one.
pub adapt_loop-fuel :
    (fuel more : ℕ) (qf : Qf) (index bucket hash other_hash slots_used total ret_hash count_len : ℕ)
    → 0 < qf.bits_per_slot
    → 64 ≤ fuel + total
    → adapt_loop
        (suc (fuel + more))
        qf
        index
        bucket
        hash
        other_hash
        slots_used
        total
        ret_hash
        count_len
      ≡ adapt_loop (suc fuel) qf index bucket hash other_hash slots_used total ret_hash count_len
unfolding adapt_loop
adapt_loop-fuel zero more qf index bucket hash other slots_used total ret_hash count_len nz h =
    bind-congr (extend_slot qf (index + slots_used) bucket _ count_len) _ _
      (λ o run. after_round-congr _ _ _ _ _ o (λ t qf' e. absurd (ground (arith, t))))
adapt_loop-fuel (suc fuel) more qf index bucket hash other slots_used total ret_hash count_len nz
      h =
    bind-congr (extend_slot qf (index + slots_used) bucket _ count_len) _ _ (λ o run.
      after_round-congr _ _ _ _ _ o (λ t qf' e.
        let w = extend_slot-width qf (index + slots_used) bucket _ count_len (run ∙ ap done e) in
        let c : suc fuel + more ≡ suc (fuel + more) = omega arith in
        rw c (
          adapt_loop-fuel fuel more qf' index bucket _ _ _ _ _ 0 (omega (arith, w)) (omega arith))))
