-- ===== src/Qf/Merge/Fuel/Drains.antt =====
-- The loops of qf_merge_ret (src/gqf.c) that take the rest of one filter: each round places an item.
use ski_rental_adaptive_qf.Prelude.{
  ℕ, zero, suc, ◌+◌, ◌-◌, ◌≤◌, ◌<◌, ◌≡◌, refl, inl, inr, arith, ◌==◌, if◌then◌else◌, Bool-cases,
  done, >>=-cong, elim-cong,
}
use ski_rental_adaptive_qf.Qf.{Qf}
use ski_rental_adaptive_qf.Qf.Merge.Filters.{
  Source, advance, Target, open_run, place, drain_run, load, drain_rest,
}
use ski_rental_adaptive_qf.Qf.Merge.Fuel.MainLoop.{
  Further, place-Further, not_back, open_run-xnslots,
}
use ski_rental_adaptive_qf.Qf.{Qf}
use ski_rental_adaptive_qf.Qf.Iterate.{Qfi, qfi_next}

-- The slots behind the last item placed.
left : Target → ℕ
left t = t.qf.xnslots - t.current_index

Further-left : (t t' : Target) → Further t t' → left t' < left t
unfolding left
Further-left t t' f = omega (arith, f.0, f.1, f.2)

-- The run of the next item is opened if it is not the current one.
opened : Target → ℕ → Target
opened t run = if run == t.current_run then t else open_run t run

opened-left : (t : Target) (run : ℕ) → left (opened t run) ≤ left t
unfolding left opened open_run
opened-left t run = elim (Bool-cases (run == t.current_run)) [
  | inl y ↦ rw y (omega arith)
  | inr n ↦
      let e : (open_run t run).qf.xnslots ≡ t.qf.xnslots = open_run-xnslots t run in
      rw n (omega (arith, e, not_back t.current_index run))
]

-- Any fuel above the slots left takes the rest of a run.
pub drain_run-fuel :
    (fuel extra : ℕ) (qf : Qf) (s : Source) (t : Target)
    → t.qf.xnslots - t.current_index < fuel
    → drain_run (fuel + extra) qf s t ≡ drain_run fuel qf s t
unfolding drain_run left
drain_run-fuel zero extra qf s t room = absurd (omega arith)
drain_run-fuel (suc fuel) extra qf s t room =
    let e : suc fuel + extra ≡ suc (fuel + extra) = omega arith in
    rw e (
      >>=-cong (place t s.qfi.run s.finger s.count) refl (λ t' run.
        let fewer = Further-left t t' (place-Further t s.qfi.run s.finger s.count t' run) in
        >>=-cong (advance qf s) refl (λ s' _.
          elim-cong (s'.qfi.run == t.current_run) (done (s', t'))
            (drain_run-fuel fuel extra qf s' t' (omega arith)))))

-- Any fuel above the slots left takes the rest of a filter.
pub drain_rest-fuel :
    (fuel extra : ℕ) (qf : Qf) (qfi : Qfi) (t : Target)
    → t.qf.xnslots - t.current_index < fuel
    → drain_rest (fuel + extra) qf qfi t ≡ drain_rest fuel qf qfi t
unfolding drain_rest left opened
drain_rest-fuel zero extra qf qfi t room = absurd (omega arith)
drain_rest-fuel (suc fuel) extra qf qfi t room =
    let e : suc fuel + extra ≡ suc (fuel + extra) = omega arith in
    let o = opened-left t qfi.run in
    rw e (
      >>=-cong (load qf qfi) refl (λ s _.
        >>=-cong (place (opened t qfi.run) qfi.run s.finger s.count) refl (λ t' run.
          let fewer =
            Further-left (opened t qfi.run) t'
              (place-Further (opened t qfi.run) qfi.run s.finger s.count t' run) in
          >>=-cong (qfi_next qf qfi) refl (λ (more, qfi') _.
            elim-cong more (done t') (drain_rest-fuel fuel extra qf qfi' t' (omega arith))))))
