-- ===== src/Qf/Merge/Uncounted.antt =====
-- What qf_merge_ret of src/gqf.c leaves as it was in the filter that it writes to.
use ski_rental_adaptive_qf.Prelude.{
  ℕ, zero, suc, ◌*◌, ◌≡◌, refl, ap, ◌∙◌, Bool, true, false, ◌&&◌, ◌||◌, not, Option, none, some,
  arith, ◌==◌, if◌then◌else◌, done, all-bind, all-done, all-if, all-elim, all-assert-true, ℤ, pos,
  negsuc,
}
use ski_rental_adaptive_qf.Qf.{Qf, rounds}
use ski_rental_adaptive_qf.Qf.Bits.{mark_occupied}
use ski_rental_adaptive_qf.Qf.Iterate.{Qfi, qfi_end, qf_iterator_from_position, qfi_next}
use ski_rental_adaptive_qf.Qf.Merge.{Finger, finger_cmp, merge_insert}
use ski_rental_adaptive_qf.Qf.Merge.Frame.{frame, merge_insert-frame}
use ski_rental_adaptive_qf.Qf.Merge.Filters.{
  Source, load, advance, Target, mark_last, open_run, place, drain_run, drain_rest, Collisions,
  note_collision, Merging, merge_ordered, merge_both, merge_round, merge_loop, drain_unless_end,
  can_merge, blank, qf_merge_ret,
}

mark_last-frame : (last : Option ℕ) (qf : Qf) → frame (mark_last last qf) ≡ frame qf
unfolding mark_last
mark_last-frame none qf = refl
mark_last-frame (some i) qf = refl

open_run-frame : (t : Target) (run : ℕ) → frame (open_run t run).qf ≡ frame t.qf
unfolding open_run
open_run-frame t run = mark_last-frame t.last_index (mark_occupied t.qf run)

place-frame :
    (t : Target) (run : ℕ) (finger : Finger) (count : ℕ) (t' : Target)
    → place t run finger count ≡ done t'
    → frame t'.qf ≡ frame t.qf
unfolding place
place-frame t run finger count =
    all-bind (λ (t' : Target). frame t'.qf ≡ frame t.qf)
      (merge_insert t.qf t.current_index run finger count) _
      (λ (i, qf) e.
        all-done _ _ (merge_insert-frame t.qf t.current_index run finger count (i, qf) e))

drain_run-frame :
    (fuel : ℕ) (qf : Qf) (s : Source) (t : Target) (r : Source × Target)
    → drain_run fuel qf s t ≡ done r
    → frame r.1.qf ≡ frame t.qf
unfolding drain_run
drain_run-frame zero qf s t = λ r h. cc
drain_run-frame (suc fuel) qf s t = all-bind P (place t s.qfi.run s.finger s.count) _ (λ t' e.
    all-bind P (advance qf s) _ (λ s' _.
      all-elim P (s'.qfi.run == t.current_run) _ _
        (λ _ r run.
          drain_run-frame fuel qf s' t' r run ∙ place-frame t s.qfi.run s.finger s.count t' e)
        (λ _. all-done P (s', t') (place-frame t s.qfi.run s.finger s.count t' e))))
  where
    P : Source × Target → Type 0
    P r = frame r.1.qf ≡ frame t.qf

run_opened-frame :
    (b : Bool) (t : Target) (run : ℕ) → frame (if b then t else open_run t run).qf ≡ frame t.qf
run_opened-frame true t run = refl
run_opened-frame false t run = open_run-frame t run

drain_rest-frame :
    (fuel : ℕ) (qf : Qf) (qfi : Qfi) (t : Target) (t' : Target)
    → drain_rest fuel qf qfi t ≡ done t'
    → frame t'.qf ≡ frame t.qf
unfolding drain_rest
drain_rest-frame zero qf qfi t = λ r h. cc
drain_rest-frame (suc fuel) qf qfi t = all-bind P (load qf qfi) _ (λ s _.
    all-bind P (place u qfi.run s.finger s.count) _ (λ t' e.
      let kept : frame t'.qf ≡ frame t.qf =
        place-frame u qfi.run s.finger s.count t' e
        ∙ run_opened-frame (qfi.run == t.current_run) t qfi.run in
      all-bind P (qfi_next qf qfi) _ (λ (more, qfi') _.
        all-elim P more _ _ (λ _ r run. drain_rest-frame fuel qf qfi' t' r run ∙ kept)
          (λ _. all-done P t' kept))))
  where
    u : Target
    u = if qfi.run == t.current_run then t else open_run t qfi.run

    P : Target → Type 0
    P r = frame r.qf ≡ frame t.qf

module _ (collect : Bool) (qfa qfb : Qf) where
  abbrev SameFrame : Merging → Merging → Type 0
  SameFrame m m' = frame m'.target.qf ≡ frame m.target.qf

  merge_ordered-frame :
      (m : Merging) (order : ℤ) (m' : Merging)
      → merge_ordered collect qfa qfb m order ≡ done m'
      → SameFrame m m'
  unfolding merge_ordered
  merge_ordered-frame m (pos zero) =
      all-bind (SameFrame m) (place m.target m.target.current_run m.a.finger _) _ (λ t e.
        all-bind (SameFrame m)
          (note_collision collect qfa m.target.current_run m.a.finger m.collisions) _
          (λ cs _. all-bind (SameFrame m) (advance qfa m.a) _ (λ a _.
            all-bind (SameFrame m) (advance qfb m.b) _ (λ b _.
              all-done (SameFrame m) _
                (place-frame m.target m.target.current_run m.a.finger _ t e)))))
  merge_ordered-frame m (negsuc _) =
      all-bind (SameFrame m) (place m.target m.target.current_run m.a.finger m.a.count) _ (λ t e.
        all-bind (SameFrame m) (advance qfa m.a) _ (λ a _.
          all-done (SameFrame m) (record m { a = a; target = t })
            (place-frame m.target m.target.current_run m.a.finger m.a.count t e)))
  merge_ordered-frame m (pos (suc _)) =
      all-bind (SameFrame m) (place m.target m.target.current_run m.b.finger m.b.count) _ (λ t e.
        all-bind (SameFrame m) (advance qfb m.b) _ (λ b _.
          all-done (SameFrame m) (record m { b = b; target = t })
            (place-frame m.target m.target.current_run m.b.finger m.b.count t e)))

  merge_both-frame : (m m' : Merging) → merge_both collect qfa qfb m ≡ done m' → SameFrame m m'
  unfolding merge_both
  merge_both-frame m =
      all-bind (SameFrame m) (finger_cmp m.target.qf.bits_per_slot m.a.finger m.b.finger) _
        (λ order _. merge_ordered-frame m order)

  merge_round-frame : (m m' : Merging) → merge_round collect qfa qfb m ≡ done m' → SameFrame m m'
  unfolding merge_round
  merge_round-frame m =
      all-if (SameFrame m) (m.a.qfi.run == run) _ _
        (λ _.
          all-if (SameFrame m) (m.b.qfi.run == run) _ _ (λ _. merge_both-frame m)
            (λ _. all-bind (SameFrame m) (drain_run fuel qfa m.a m.target) _ (λ (a, t) e.
              all-done (SameFrame m) (record m { a = a; target = t })
                (drain_run-frame fuel qfa m.a m.target (a, t) e))))
        (λ _.
          all-if (SameFrame m) (m.b.qfi.run == run) _ _
            (λ _. all-bind (SameFrame m) (drain_run fuel qfb m.b m.target) _ (λ (b, t) e.
              all-done (SameFrame m) (record m { b = b; target = t })
                (drain_run-frame fuel qfb m.b m.target (b, t) e)))
            (λ _. all-done (SameFrame m) _ (open_run-frame m.target _)))
    where
      fuel : ℕ
      fuel = rounds m.target.qf

      run : ℕ
      run = m.target.current_run

  merge_loop-frame :
      (fuel : ℕ) (m m' : Merging) → merge_loop fuel collect qfa qfb m ≡ done m' → SameFrame m m'
  unfolding merge_loop
  merge_loop-frame zero m = λ m' h. cc
  merge_loop-frame (suc fuel) m = all-bind (SameFrame m) (merge_round collect qfa qfb m) _ (λ m₁ e.
      all-elim (SameFrame m) (not (qfi_end qfa m₁.a.qfi) && not (qfi_end qfb m₁.b.qfi)) _ _
        (λ _ m₂ run. merge_loop-frame fuel m₁ m₂ run ∙ merge_round-frame m m₁ e)
        (λ _. all-done (SameFrame m) m₁ (merge_round-frame m m₁ e)))

drain_unless_end-frame :
    (qf : Qf) (qfi : Qfi) (t t' : Target)
    → drain_unless_end qf qfi t ≡ done t'
    → frame t'.qf ≡ frame t.qf
unfolding drain_unless_end
drain_unless_end-frame qf qfi t =
    all-if P (qfi_end qf qfi) _ _ (λ _. all-done P t refl)
      (λ _. drain_rest-frame (rounds t.qf) qf qfi t)
  where
    P : Target → Type 0
    P r = frame r.qf ≡ frame t.qf

first_run-frame : (b : Bool) (qf : Qf) → frame (if b then mark_occupied qf 0 else qf) ≡ frame qf
first_run-frame true qf = refl
first_run-frame false qf = refl

empty_target : (a b c : Qf) → can_merge a b c ≡ true → c.noccupied_slots ≡ 0
unfolding can_merge
empty_target a b c h = ground arith

-- However many items qf_merge_ret puts in a filter, it leaves its counts as they were: by
-- noccupied_slots the filter is empty, and nelts and ndistinct_elts stay as well.
pub qf_merge_ret-uncounted :
    (collect : Bool) (qfa qfb qfc : Qf) {collisions : Collisions} {qf' : Qf}
    → qf_merge_ret collect qfa qfb qfc ≡ done (collisions, qf')
    → (qf'.noccupied_slots ≡ 0)
      × (qf'.nelts ≡ qfc.nelts)
      × (qf'.ndistinct_elts ≡ qfc.ndistinct_elts)
unfolding qf_merge_ret
qf_merge_ret-uncounted collect qfa qfb qfc {collisions} {qf'} =
    all-assert-true P (can_merge qfa qfb qfc) _
      (λ ok. all-bind P (qf_iterator_from_position qfa blank 0) _ (λ (_, qfia) _.
        all-bind P (qf_iterator_from_position qfb blank 0) _ (λ (_, qfib) _.
          all-bind P (load qfa qfia) _ (λ a _. all-bind P (load qfb qfib) _ (λ b _.
            all-bind P (merge_loop (2 * rounds qfc) collect qfa qfb _) _ (λ m e₁.
              all-bind P (drain_unless_end qfa m.a.qfi m.target) _ (λ t e₂.
                all-bind P (drain_unless_end qfb m.b.qfi t) _ (λ t' e₃.
                  all-done P (m.collisions, _)
                    (uncounted ok (mark_last t'.last_index t'.qf) (
                      mark_last-frame t'.last_index t'.qf
                      ∙ drain_unless_end-frame qfb m.b.qfi t t' e₃
                      ∙ drain_unless_end-frame qfa m.a.qfi m.target t e₂
                      ∙ merge_loop-frame collect qfa qfb (2 * rounds qfc) _ m e₁
                      ∙ first_run-frame ((qfia.run == 0) || (qfib.run == 0)) qfc))))))))))
      (collisions, qf')
  where
    P : Collisions × Qf → Type 0
    P r =
        (r.1.noccupied_slots ≡ 0)
        × (r.1.nelts ≡ qfc.nelts)
        × (r.1.ndistinct_elts ≡ qfc.ndistinct_elts)

    uncounted : can_merge qfa qfb qfc ≡ true → (q : Qf) → frame q ≡ frame qfc → P (collisions, q)
    uncounted ok q e =
        (ap (λ f. f.5) e ∙ empty_target qfa qfb qfc ok, ap (λ f. f.3) e, ap (λ f. f.4) e)
