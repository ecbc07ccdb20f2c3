-- ===== src/Qf/Merge/Fuel/MainLoop.antt =====
-- The main loop of qf_merge_ret (src/gqf.c): two rounds place at least one item.
use ski_rental_adaptive_qf.Prelude.{
  ℕ, zero, suc, ◌+◌, ◌-◌, ◌*◌, ◌≤◌, ◌<◌, ◌≡◌, refl, ◌∙◌, inl, inr, Bool, true, false, ◌&&◌, ◌||◌,
  not, Option, arith, ltb, ◌==◌, if◌then◌else◌, Bool-cases, done, >>=-cong, elim-cong, all-bind,
  all-done, all-if, all-elim, ℤ, pos, negsuc,
}
use ski_rental_adaptive_qf.Qf.{Qf, rounds}
use ski_rental_adaptive_qf.Qf.Bits.{mark_occupied}
use ski_rental_adaptive_qf.Qf.Iterate.{qfi_end}
use ski_rental_adaptive_qf.Qf.Merge.{Finger, finger_cmp}
use ski_rental_adaptive_qf.Qf.Merge.Fuel.{place-advances}
use ski_rental_adaptive_qf.Qf.Merge.Filters.{
  Source, advance, Target, mark_last, open_run, place, drain_run, note_collision, Merging,
  merge_ordered, merge_both, merge_round, merge_loop,
}

-- A target that has gone on.
abbrev pub Further : Target → Target → Type 0
Further t t' =
    (t.current_index < t'.current_index)
    × (t'.current_index ≤ t.qf.xnslots)
    × (t'.qf.xnslots ≡ t.qf.xnslots)

pub place-Further :
    (t : Target) (run : ℕ) (f : Finger) (count : ℕ) (t' : Target)
    → place t run f count ≡ done t'
    → Further t t'
place-Further t run f count t' e = let a = place-advances t run f count t' e in (a.0, a.1, a.3)

drain_run-Further :
    (fuel : ℕ) (qf : Qf) (s : Source) (t : Target) (r : Source × Target)
    → drain_run fuel qf s t ≡ done r
    → Further t r.1
unfolding drain_run
drain_run-Further zero qf s t = λ r h. cc
drain_run-Further (suc fuel) qf s t = all-bind P (place t s.qfi.run s.finger s.count) _ (λ t' e.
    let p = place-Further t s.qfi.run s.finger s.count t' e in
    all-bind P (advance qf s) _ (λ s' _.
      all-elim P (s'.qfi.run == t.current_run) _ _
        (λ _ r run.
          let ih = drain_run-Further fuel qf s' t' r run in
          (omega (arith, p.0, ih.0), omega (arith, p.2, ih.1), ih.2 ∙ p.2))
        (λ _. all-done P (s', t') p)))
  where
    P : Source × Target → Type 0
    P r = Further t r.1

-- Whether one of the filters has an item for the current run.
ready : Merging → Bool
ready m = (m.a.qfi.run == m.target.current_run) || (m.b.qfi.run == m.target.current_run)

-- A round places an item, or makes the next round place one.
Moves : Merging → Merging → Type 0
Moves m m' =
    (ready m ≡ true → Further m.target m'.target)
    × (ready m ≡ false
        → (ready m' ≡ true)
          × (m.target.current_index ≤ m'.target.current_index)
          × (m'.target.qf.xnslots ≡ m.target.qf.xnslots))

placed-Moves : (m m' : Merging) → ready m ≡ true → Further m.target m'.target → Moves m m'
unfolding Moves
placed-Moves m m' is_ready f = (λ _. f, λ e. cc)

pub open_run-xnslots : (t : Target) (run : ℕ) → (open_run t run).qf.xnslots ≡ t.qf.xnslots
unfolding open_run
open_run-xnslots t run = marked t.last_index (mark_occupied t.qf run)
  where
    marked : (last : Option ℕ) (qf : Qf) → (mark_last last qf).xnslots ≡ qf.xnslots
    marked last qf = ground arith

opened_ready :
    (x y : ℕ) → ((x == (if ltb x y then x else y)) || (y == (if ltb x y then x else y))) ≡ true
opened_ready x y = ground arith

pub not_back : (index run : ℕ) → index ≤ (if ltb index run then run else index)
not_back index run = ground arith

opened-Moves :
    (m : Merging)
    → ready m ≡ false
    → Moves m (record m {
      target = open_run m.target (if ltb m.a.qfi.run m.b.qfi.run then m.a.qfi.run else m.b.qfi.run);
    })
unfolding Moves ready open_run
opened-Moves m not_ready = (
  λ e. cc,
  λ _. (
    opened_ready m.a.qfi.run m.b.qfi.run,
    not_back m.target.current_index _,
    open_run-xnslots m.target _,
  ),
)

module _ (collect : Bool) (qfa qfb : Qf) where
  merge_ordered-Further :
      (m : Merging) (order : ℤ) (m' : Merging)
      → merge_ordered collect qfa qfb m order ≡ done m'
      → Further m.target m'.target
  unfolding merge_ordered
  merge_ordered-Further m (pos zero) =
      all-bind (λ m'. Further m.target m'.target) (place m.target m.target.current_run m.a.finger _)
        _
        (λ t e.
          all-bind _ (note_collision collect qfa m.target.current_run m.a.finger m.collisions) _
            (λ cs _. all-bind _ (advance qfa m.a) _ (λ a _. all-bind _ (advance qfb m.b) _ (λ b _.
              all-done _ _ (place-Further m.target m.target.current_run m.a.finger _ t e)))))
  merge_ordered-Further m (negsuc _) =
      all-bind (λ m'. Further m.target m'.target)
        (place m.target m.target.current_run m.a.finger m.a.count) _
        (λ t e. all-bind _ (advance qfa m.a) _ (λ a _.
          all-done _ _ (place-Further m.target m.target.current_run m.a.finger m.a.count t e)))
  merge_ordered-Further m (pos (suc _)) =
      all-bind (λ m'. Further m.target m'.target)
        (place m.target m.target.current_run m.b.finger m.b.count) _
        (λ t e. all-bind _ (advance qfb m.b) _ (λ b _.
          all-done _ _ (place-Further m.target m.target.current_run m.b.finger m.b.count t e)))

  merge_both-Further :
      (m m' : Merging) → merge_both collect qfa qfb m ≡ done m' → Further m.target m'.target
  unfolding merge_both
  merge_both-Further m =
      all-bind (λ m'. Further m.target m'.target)
        (finger_cmp m.target.qf.bits_per_slot m.a.finger m.b.finger) _
        (λ order _. merge_ordered-Further m order)

  first_ready : (m : Merging) → (m.a.qfi.run == m.target.current_run) ≡ true → ready m ≡ true
  unfolding ready
  first_ready m e = rw e refl

  second_ready :
      (m : Merging)
      → (m.a.qfi.run == m.target.current_run) ≡ false
      → {b : Bool} → (m.b.qfi.run == m.target.current_run) ≡ b
      → ready m ≡ b
  unfolding ready
  second_ready m e f = rw e f

  merge_round-Moves : (m m' : Merging) → merge_round collect qfa qfb m ≡ done m' → Moves m m'
  unfolding merge_round
  merge_round-Moves m =
      all-if (Moves m) (m.a.qfi.run == run) _ _
        (λ x.
          all-if (Moves m) (m.b.qfi.run == run) _ _
            (λ _ m' e. placed-Moves m m' (first_ready m x) (merge_both-Further m m' e))
            (λ _. all-bind (Moves m) (drain_run fuel qfa m.a m.target) _ (λ (a, t) e.
              all-done (Moves m) (record m { a = a; target = t })
                (placed-Moves m (record m { a = a; target = t }) (first_ready m x)
                  (drain_run-Further fuel qfa m.a m.target (a, t) e)))))
        (λ x.
          all-if (Moves m) (m.b.qfi.run == run) _ _
            (λ y. all-bind (Moves m) (drain_run fuel qfb m.b m.target) _ (λ (b, t) e.
              all-done (Moves m) (record m { b = b; target = t })
                (placed-Moves m (record m { b = b; target = t }) (second_ready m x y)
                  (drain_run-Further fuel qfb m.b m.target (b, t) e))))
            (λ y. all-done (Moves m) _ (opened-Moves m (second_ready m x y))))
    where
      fuel : ℕ
      fuel = rounds m.target.qf

      run : ℕ
      run = m.target.current_run

  -- Two rounds for each slot left, and one if the next round places nothing.
  left : Merging → ℕ
  left m = 2 * (m.target.qf.xnslots - m.target.current_index) + (if ready m then 0 else 1)

  Moves-left : (m m' : Merging) → Moves m m' → left m' < left m
  unfolding Moves left
  Moves-left m m' v = elim (Bool-cases (ready m)) [
    | inl y ↦ let f = v.0 y in ground arith
    | inr n ↦ let f = v.1 n in ground arith
  ]

  merge_loop-left :
      (fuel extra : ℕ) (m : Merging)
      → left m < fuel
      → merge_loop (fuel + extra) collect qfa qfb m ≡ merge_loop fuel collect qfa qfb m
  unfolding merge_loop
  merge_loop-left zero extra m room = absurd (omega arith)
  merge_loop-left (suc fuel) extra m room =
      let e : suc fuel + extra ≡ suc (fuel + extra) = omega arith in
      rw e (
        >>=-cong (merge_round collect qfa qfb m) refl (λ m' run.
          let fewer = Moves-left m m' (merge_round-Moves m m' run) in
          elim-cong (not (qfi_end qfa m'.a.qfi) && not (qfi_end qfb m'.b.qfi)) (done m')
            (merge_loop-left fuel extra m' (omega arith))))

  left-le : (m : Merging) → left m ≤ 2 * (m.target.qf.xnslots - m.target.current_index) + 1
  unfolding left
  left-le m = ground arith

  -- The main loop of qf_merge_ret comes to the same result with any fuel of more rounds than one and
  -- two for each slot that is left in the filter written to.
  pub merge_loop-fuel :
      (fuel extra : ℕ) (m : Merging)
      → 2 * (m.target.qf.xnslots - m.target.current_index) + 1 < fuel
      → merge_loop (fuel + extra) collect qfa qfb m ≡ merge_loop fuel collect qfa qfb m
  merge_loop-fuel fuel extra m room = merge_loop-left fuel extra m (omega (arith, left-le m))
