-- ===== src/Qf/Bulk/Uncounted.antt =====
-- What qf_bulk_insert of src/gqf.c leaves as it was.
use ski_rental_adaptive_qf.Prelude.{
  ℕ, ◌*◌, ◌≡◌, refl, ap, ◌∙◌, true, not, List, [], ◌∷◌, ltb, ◌==◌, if◌then◌else◌, ==_iff, done,
  all-bind, all-done, all-if, all-assert-true, all-assert,
}
use ski_rental_adaptive_qf.Qf.{Qf}
use ski_rental_adaptive_qf.Qf.Merge.Frame.{frame, merge_insert-frame}
use ski_rental_adaptive_qf.Qf.Bulk.{
  rem_of, run_of, ext_of, Pending, apart_len, release, move_on, bulk_step, bulk_loop, amount_of,
  qf_bulk_insert,
}

abbrev Framed {ℓ} : {A : Type ℓ} → Qf → A × Qf → Type 0
Framed qf (a, qf') = frame qf' ≡ frame qf

release-frame : (qf : Qf) (p : Pending) (n : ℕ) (r : ℕ × Qf) → release qf p n ≡ done r → Framed qf r
unfolding release
release-frame qf p n = merge_insert-frame qf p.index p.run _ p.count

move_on-frame :
    (qf : Qf) (p : Pending) (key : ℕ) (r : Pending × Qf) → move_on qf p key ≡ done r → Framed qf r
unfolding move_on
move_on-frame qf p key =
    all-bind (Framed qf) (release qf p p.ext_len) _
      (λ (i, q) e. all-done (Framed qf) (_, q) (release-frame qf p p.ext_len (i, q) e))

bulk_step-frame :
    (qf : Qf) (p : Pending) (previous key : ℕ) (r : Pending × Qf)
    → bulk_step qf p previous key ≡ done r
    → Framed qf r
unfolding bulk_step
bulk_step-frame qf p previous key =
    all-if (Framed qf) (not (run_of qf key == p.run)) _ _ (λ _. move_on-frame _ p key)
      (λ _.
        all-if (Framed qf) (not (rem_of qf key == p.rem)) _ _ (λ _. move_on-frame qf p key)
          (λ _.
            all-if (Framed qf) (key == previous) _ _ (λ _. all-done (Framed qf) (_, qf) refl)
              (λ _. all-bind (Framed qf) (apart_len 65 qf p.ext (ext_of qf key) 1) _ (λ n _.
                all-bind (Framed qf) (release qf p (if ltb p.ext_len n then n else p.ext_len)) _
                  (λ (i, q) e. all-done (Framed qf) (_, q) (release-frame qf p _ (i, q) e))))))

bulk_loop-frame :
    (qf : Qf) (p : Pending) (previous : ℕ) (keys : List ℕ) (r : Pending × Qf)
    → bulk_loop qf p previous keys ≡ done r
    → Framed qf r
unfolding bulk_loop
bulk_loop-frame qf p previous [] = all-done (Framed qf) (p, qf) refl
bulk_loop-frame qf p previous (key ∷ keys) =
    all-bind (Framed qf) (bulk_step qf p previous key) _ (λ (p', q) e r run.
      bulk_loop-frame q p' key keys r run ∙ bulk_step-frame qf p previous key (p', q) e)

-- However many keys qf_bulk_insert puts in a filter, it leaves its counts as they were: by
-- noccupied_slots the filter is still empty, so that the same filter passes for empty again.
pub qf_bulk_insert-uncounted :
    (qf : Qf) (keys : List ℕ) {qf' : Qf}
    → qf_bulk_insert qf keys ≡ done qf'
    → (qf'.noccupied_slots ≡ 0) × (qf'.nelts ≡ qf.nelts) × (qf'.ndistinct_elts ≡ qf.ndistinct_elts)
unfolding qf_bulk_insert
qf_bulk_insert-uncounted qf [] = λ h. cc
qf_bulk_insert-uncounted qf (key ∷ keys) {qf'} =
    all-assert-true P (qf.noccupied_slots == 0) _
      (λ empty. all-assert P (ltb (100 * amount_of (key ∷ keys)) (95 * qf.nslots)) _ (
        all-bind P (bulk_loop _ _ key keys) _ (λ (p, q₁) e₁.
          all-bind P (release _ p p.ext_len) _ (λ (i, q₂) e₂. all-done P q₂ (
            uncounted empty q₂ (
              release-frame _ p p.ext_len (i, q₂) e₂ ∙ bulk_loop-frame _ _ key keys (p, q₁) e₁))))))
      qf'
  where
    P : Qf → Type 0
    P q = (q.noccupied_slots ≡ 0) × (q.nelts ≡ qf.nelts) × (q.ndistinct_elts ≡ qf.ndistinct_elts)

    uncounted : (qf.noccupied_slots == 0) ≡ true → (q : Qf) → frame q ≡ frame qf → P q
    uncounted empty q e =
        (ap (λ f. f.5) e ∙ (==_iff qf.noccupied_slots 0).0 empty, ap (λ f. f.3) e, ap (λ f. f.4) e)
