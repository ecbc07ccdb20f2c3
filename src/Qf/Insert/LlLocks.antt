-- ===== src/Qf/Insert/LlLocks.antt =====
-- insert_using_ll_table of src/gqf.c and the region locks.
use ski_rental_adaptive_qf.Prelude.{
  all-bind, all-done, all-if, all-assert, ℕ, ◌≡◌, refl, ◌∙◌, Bool, true, ◌&&◌, not, Option, arith,
  ◌==◌, if◌then◌else◌, Outcome, done, ◌>>=◌,
}
use ski_rental_adaptive_qf.Qf.{Flags, Qf, rounds}
use ski_rental_adaptive_qf.Qf.Bits.{might_be_empty, is_occupied, is_extension_or_counter}
use ski_rental_adaptive_qf.Qf.Locks.{qf_lock}
use ski_rental_adaptive_qf.Qf.Adapt.{Ret}
use ski_rental_adaptive_qf.Qf.Query.{hash_remainder}
use ski_rental_adaptive_qf.Qf.Runs.{run_end, run_start}
use ski_rental_adaptive_qf.Qf.Insert.{
  insert_bucket, insert_empty_slot, insert_new_run, insert_in_run, add_count,
}
use ski_rental_adaptive_qf.Qf.Insert.Locks.{
  insert_empty_slot-locks, insert_new_run-locks, insert_in_run-locks, add_count-locks, unlocked,
  taken,
}
use ski_rental_adaptive_qf.Qf.Insert.LlTable.{
  InsertResult, RankWalk, place, ran_off, ll_walk, ll_body, insert_using_ll_table,
}

pub all-rank_walk {ℓ} :
    {B : Type ℓ} (P : B → Type 0) (f : ℕ → ℕ → Bool → Option ℕ → Outcome B) (g : Outcome B)
    → ((at current : ℕ) (last : Bool) (o : Option ℕ) (b : B) → f at current last o ≡ done b → P b)
    → ((b : B) → g ≡ done b → P b)
    → (walk : RankWalk) (b : B)
    → elim walk [ ran_off ↦ g | place at current last o ↦ f at current last o ] ≡ done b
    → P b
all-rank_walk P f g u v (place at current last o) = u at current last o
all-rank_walk P f g u v ran_off = v

ll_body-locks :
    (qf : Qf) (result : InsertResult) (count : ℕ) {ret : Ret} {result' : InsertResult} {qf' : Qf}
    → ll_body qf result count ≡ done (ret, result', qf')
    → qf'.locks ≡ qf.locks
unfolding ll_body
ll_body-locks qf result count {ret = ret} {result' = result'} {qf' = qf'} =
    all-bind same (run_end qf bucket) _
      (λ runend_index e.
        all-if same (might_be_empty qf bucket && (runend_index == bucket)) _ _
          (λ t.
            all-bind same (insert_empty_slot qf bucket remainder 1) _
              (λ qf₁ e. counted qf₁ bucket (insert_empty_slot-locks qf bucket remainder 1 e) _ _))
          (λ f. all-bind same (run_start qf bucket) _ (λ s e.
            all-if same (not (is_occupied qf bucket)) _ _
              (λ t.
                all-bind same (insert_new_run qf bucket s remainder 1) _ (λ qf₁ e.
                  counted qf₁ bucket (insert_new_run-locks qf bucket s remainder 1 e) _ _))
              (λ f. all-assert same (not (is_extension_or_counter qf s)) _ (
                all-bind same (ll_walk (rounds qf) qf result.hash s) _ (λ walk e.
                  all-rank_walk same _ _
                    (λ at current last o.
                      all-bind same (insert_in_run qf bucket at current last remainder count) _
                        (λ qf₁ e.
                          counted qf₁ at
                            (insert_in_run-locks qf bucket at current last remainder count e) _ _))
                    (all-done same _ refl) walk))))))
      (ret, result', qf')
  where
    bucket : ℕ
    bucket = insert_bucket qf result.hash

    remainder : ℕ
    remainder = hash_remainder qf result.hash

    same : Ret × InsertResult × Qf → Type 0
    same r = r.2.locks ≡ qf.locks

    counted :
        (qf₁ : Qf) (at : ℕ)
        → qf₁.locks ≡ qf.locks
        → (ret : Ret) (o : InsertResult) (b : Ret × InsertResult × Qf)
        → (add_count qf₁ at result.hash count >>= λ qf₂. done (ret, o, qf₂)) ≡ done b
        → same b
    counted qf₁ at e ret o =
        all-bind same (add_count qf₁ at result.hash count) _
          (λ qf₂ e'. all-done same _ (add_count-locks qf₁ at result.hash count e' ∙ e))

-- insert_using_ll_table leaves the region locks as it found them, whatever it returns.
pub insert_using_ll_table-locks :
    (qf : Qf) (result : InsertResult) (count : ℕ) (flags : Flags) {ret : Ret}
    {result' : InsertResult} {qf' : Qf}
    → insert_using_ll_table qf result count flags ≡ done (ret, result', qf')
    → qf'.locks ≡ qf.locks
unfolding insert_using_ll_table
insert_using_ll_table-locks qf result count flags {ret = ret} {result' = result'} {qf' = qf'} =
    all-bind same (if flags.no_lock then done (true, qf) else qf_lock qf bucket true flags) _
      (λ r e.
        all-if same (not r.0) _ _
          (λ t. all-done same _ ((taken qf bucket flags r e).0 (ground arith)))
          (λ f. all-bind same (ll_body r.1 result count) _ (λ x e'. all-done same _ (
            unlocked flags r.1 x.2 bucket (ll_body-locks r.1 result count e')
            ∙ (taken qf bucket flags r e).1 (ground arith)))))
      (ret, result', qf')
  where
    bucket : ℕ
    bucket = insert_bucket qf result.hash

    same : Ret × InsertResult × Qf → Type 0
    same r = r.2.locks ≡ qf.locks
