-- ===== src/Qf/Insert/LlCounts.antt =====
-- The number of slots in use after an insertion for the key table (src/gqf.c).
use ski_rental_adaptive_qf.Prelude.{
  ℕ, ◌+◌, ◌≡◌, refl, inl, inr, Bool, true, false, ◌&&◌, not, Option, arith, ◌==◌, Bool-cases,
  Outcome, done, all-bind, all-done, all-if, all-assert,
}
use ski_rental_adaptive_qf.Qf.{Flags, Qf, rounds}
use ski_rental_adaptive_qf.Qf.Bits.{is_occupied, is_extension_or_counter, set_slot, might_be_empty}
use ski_rental_adaptive_qf.Qf.Locks.{unlock_unless}
use ski_rental_adaptive_qf.Qf.Adapt.{Ret, value, err_no_space, err_couldnt_lock}
use ski_rental_adaptive_qf.Qf.Query.{hash_remainder}
use ski_rental_adaptive_qf.Qf.Runs.{run_end, run_start}
use ski_rental_adaptive_qf.Qf.Shifts.{shift_remainders, shift_runends, insert_one_slot}
use ski_rental_adaptive_qf.Qf.Insert.{
  insert_bucket, insert_empty_slot, insert_new_run, insert_in_run, add_count, make_space, is_full,
}
use ski_rental_adaptive_qf.Qf.Insert.LlLocks.{all-rank_walk}
use ski_rental_adaptive_qf.Qf.Insert.LlTable.{
  InsertResult, ll_walk, ll_body, insert_using_ll_table, qf_insert_using_ll_table,
}

-- A call that returns 0 has taken one slot more, and any other none.
abbrev pub taken_slots : Ret → ℕ
taken_slots (value n) = 1
taken_slots err_no_space = 0
taken_slots err_couldnt_lock = 0

abbrev pub Grows : Qf → Ret → Qf → Type 0
Grows qf ret qf' =
    (qf'.noccupied_slots ≡ qf.noccupied_slots + taken_slots ret)
    × (qf'.auto_resize ≡ qf.auto_resize)

-- A part of the insertion that leaves these as they are.
abbrev Stays : Qf → Qf → Type 0
Stays qf qf' = (qf'.noccupied_slots ≡ qf.noccupied_slots) × (qf'.auto_resize ≡ qf.auto_resize)

set_slot-Stays : (qf : Qf) (i v : ℕ) {qf' : Qf} → set_slot qf i v ≡ done qf' → Stays qf qf'
unfolding set_slot
set_slot-Stays qf i v h = (ground arith, ground arith)

shift_runends-Stays :
    (qf : Qf) (first last distance : ℕ) {qf' : Qf}
    → shift_runends qf first last distance ≡ done qf'
    → Stays qf qf'
unfolding shift_runends
shift_runends-Stays qf first last distance h = (ground arith, ground arith)

insert_one_slot-Stays :
    (qf : Qf) (target index v : ℕ) {b : Bool} {qf' : Qf}
    → insert_one_slot qf target index v ≡ done (b, qf')
    → Stays qf qf'
unfolding insert_one_slot shift_remainders
insert_one_slot-Stays qf target index v h = (
  grind (arith, set_slot-Stays, shift_runends-Stays),
  grind (arith, set_slot-Stays, shift_runends-Stays),
)

insert_empty_slot-Grows :
    (qf : Qf) (bucket v n : ℕ) {qf' : Qf}
    → insert_empty_slot qf bucket v n ≡ done qf'
    → Grows qf (value 0) qf'
unfolding insert_empty_slot
insert_empty_slot-Grows qf bucket v n {qf'} =
    all-bind (Grows qf (value 0)) (set_slot qf bucket v) _
      (λ q e.
        let s = set_slot-Stays qf bucket v e in
        all-done (Grows qf (value 0)) _ (omega (arith, s.0), s.1))
      qf'

insert_new_run-Grows :
    (qf : Qf) (bucket s v n : ℕ) {qf' : Qf}
    → insert_new_run qf bucket s v n ≡ done qf'
    → Grows qf (value 0) qf'
unfolding insert_new_run
insert_new_run-Grows qf bucket s v n {qf'} =
    all-bind (Grows qf (value 0)) (insert_one_slot qf bucket s v) _
      (λ q e.
        let s = insert_one_slot-Stays qf bucket s v e in
        all-done (Grows qf (value 0)) _ (omega (arith, s.0), s.1))
      qf'

insert_in_run-Grows :
    (qf : Qf) (bucket at current : ℕ) (last : Bool) (v n : ℕ) {qf' : Qf}
    → insert_in_run qf bucket at current last v n ≡ done qf'
    → Grows qf (value 0) qf'
unfolding insert_in_run
insert_in_run-Grows qf bucket at current last v n {qf'} =
    all-bind (Grows qf (value 0)) (insert_one_slot qf bucket at v) _
      (λ q e.
        let s = insert_one_slot-Stays qf bucket at v e in
        all-done (Grows qf (value 0)) _ (ground (arith, s.0), ground (arith, s.1)))
      qf'

ll_body-Grows :
    (qf : Qf) (result : InsertResult) {ret : Ret} {result' : InsertResult} {qf' : Qf}
    → ll_body qf result 1 ≡ done (ret, result', qf')
    → Grows qf ret qf'
unfolding ll_body add_count
ll_body-Grows qf result {ret = ret} {result' = result'} {qf' = qf'} =
    all-bind grows (run_end qf bucket) _
      (λ runend_index e.
        all-if grows (might_be_empty qf bucket && (runend_index == bucket)) _ _
          (λ t.
            all-bind grows (insert_empty_slot qf bucket remainder 1) _
              (λ qf₁ e. all-done grows _ (insert_empty_slot-Grows qf bucket remainder 1 e)))
          (λ f. all-bind grows (run_start qf bucket) _ (λ s e.
            all-if grows (not (is_occupied qf bucket)) _ _
              (λ t.
                all-bind grows (insert_new_run qf bucket s remainder 1) _
                  (λ qf₁ e. all-done grows _ (insert_new_run-Grows qf bucket s remainder 1 e)))
              (λ f. all-assert grows (not (is_extension_or_counter qf s)) _ (
                all-bind grows (ll_walk (rounds qf) qf result.hash s) _ (λ walk e.
                  all-rank_walk grows _ _
                    (λ at current last o.
                      all-bind grows (insert_in_run qf bucket at current last remainder 1) _
                        (λ qf₁ e.
                          all-done grows _
                            (insert_in_run-Grows qf bucket at current last remainder 1 e)))
                    (all-done grows _ (omega arith, refl)) walk))))))
      (ret, result', qf')
  where
    bucket : ℕ
    bucket = insert_bucket qf result.hash

    remainder : ℕ
    remainder = hash_remainder qf result.hash

    grows : Ret × InsertResult × Qf → Type 0
    grows r = Grows qf r.0 r.2

-- Without locks and without automatic resizing, an insertion for the key table that returns 0 has taken
-- one slot, and any other none.
pub qf_insert_using_ll_table-Grows :
    (resize : Qf → ℕ → Outcome (Option Qf)) (qf : Qf) (key : ℕ) (result : InsertResult)
    (flags : Flags) {ret : Ret} {result' : InsertResult} {qf' : Qf}
    → qf.auto_resize ≡ false
    → flags.no_lock ≡ true
    → qf_insert_using_ll_table resize qf key 1 result flags ≡ done (ret, result', qf')
    → Grows qf ret qf'
unfolding qf_insert_using_ll_table make_space insert_using_ll_table unlock_unless
qf_insert_using_ll_table-Grows resize qf key result flags {ret} {result'} {qf'} off free h =
    elim (Bool-cases (is_full qf)) [
      | inl full ↦
          let run = rw (full, off) at h in
          all-done grows (err_no_space, result, qf) (omega arith, refl) (ret, result', qf') run
      | inr room ↦
          let run = rw (room, free) at h in
          all-bind grows (ll_body qf _ 1) _ (λ x e. all-done grows _ (ll_body-Grows qf _ e))
            (ret, result', qf') run
    ]
  where
    grows : Ret × InsertResult × Qf → Type 0
    grows r = Grows qf r.0 r.2
