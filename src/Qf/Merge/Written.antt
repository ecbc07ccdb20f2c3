-- ===== src/Qf/Merge/Written.antt =====
-- What the two loops of _merge_insert in src/gqf.c write: the digits of a number, one to a slot.
use ski_rental_adaptive_qf.Prelude.{
  ◌≢◌, ℕ, ◌+◌, ◌-◌, ◌*◌, ◌≤◌, ◌<◌, ◌≡◌, refl, sym, ap, ◌∙◌, ◌⊎◌, inl, inr, Bool, true, false, ◌||◌,
  arith, ltb, ◌==◌, if◌then◌else◌, ltb→lt, ==_iff, Bool-cases, done, all-done, all-assert-true,
}
use ski_rental_adaptive_qf.Hash.{shr, low_bits}
use ski_rental_adaptive_qf.Qf.{Qf}
use ski_rental_adaptive_qf.Qf.Bits.{get_slot, set_slot, mark_runend, mark_extension}
use ski_rental_adaptive_qf.Arith.{low_bits-lt, shr-shr}
use ski_rental_adaptive_qf.Qf.Slots.{slot_width-eq, get_slot-set_slot, get_slot-set_slot_ne}
use mathlib.Core.Path.{subst}
use native.Mathlib.Nat.{add-mul}

-- From qf to qf', the slots from i to below end have become extension slots, counter slots if
-- `counter` holds, with the digits of v if slots have at most 57 bits;
-- all others are as they were.
pub record Wrote (counter : Bool) (qf : Qf) (i end v : ℕ) (qf' : Qf) : Type 0 where
  pub le : i ≤ end
  pub within : end ≤ i ⊎ end ≤ qf.xnslots
  pub same_bits : qf'.bits_per_slot ≡ qf.bits_per_slot
  pub extension : (j : ℕ) → i ≤ j → j < end → qf'.extensions j ≡ true
  pub runend : (j : ℕ) → i ≤ j → j < end → qf'.runends j ≡ (counter || qf.runends j)
  pub digit :
      (j : ℕ)
      → i ≤ j
      → j < end
      → qf.bits_per_slot ≤ 57
      → get_slot qf' j ≡ done (low_bits (shr v ((j - i) * qf.bits_per_slot)) qf.bits_per_slot)
  pub extension_out : (j : ℕ) → j < i ⊎ end ≤ j → qf'.extensions j ≡ qf.extensions j
  pub runend_out : (j : ℕ) → j < i ⊎ end ≤ j → qf'.runends j ≡ qf.runends j
  pub slot_out : (j : ℕ) → j < i ⊎ end ≤ j → get_slot qf' j ≡ get_slot qf j

-- The marks that a loop sets.
abbrev pub mark : Bool → Qf → ℕ → Qf
mark true qf i = mark_runend (mark_extension qf i) i
mark false qf i = mark_extension qf i

pub nothing-Wrote : (counter : Bool) (qf : Qf) (i v : ℕ) → Wrote counter qf i i v qf
nothing-Wrote counter qf i v = record {
  le = omega arith;
  within = inl (omega arith);
  same_bits = refl;
  extension = λ j p q. absurd (omega arith);
  runend = λ j p q. absurd (omega arith);
  digit = λ j p q n. absurd (omega arith);
  extension_out = λ j o. refl;
  runend_out = λ j o. refl;
  slot_out = λ j o. refl;
}

mark_fields :
    (counter : Bool) (q : Qf) (i j : ℕ)
    → ((mark counter q i).extensions j ≡ (if i == j then true else q.extensions j))
      × ((mark counter q i).runends j ≡ (if i == j then counter || q.runends j else q.runends j))
      × (get_slot (mark counter q i) j ≡ get_slot q j)
      × ((mark counter q i).bits_per_slot ≡ q.bits_per_slot)
      × ((mark counter q i).xnslots ≡ q.xnslots)
unfolding get_slot
mark_fields true q i j = (refl, refl, refl, refl, refl)
mark_fields false q i j = (refl, ground arith, refl, refl, refl)

pub set_slot_fields :
    (qf : Qf) (i v : ℕ) (q : Qf)
    → set_slot qf i v ≡ done q
    → (q.extensions ≡ qf.extensions)
      × (q.runends ≡ qf.runends)
      × (q.bits_per_slot ≡ qf.bits_per_slot)
      × (q.xnslots ≡ qf.xnslots)
      × (i < qf.xnslots)
unfolding set_slot
set_slot_fields qf i v =
    all-assert-true _ (ltb i qf.xnslots) _
      (λ lt. all-done _ _ (refl, refl, refl, refl, ltb→lt i qf.xnslots lt))

-- One slot, before any others.
module _ (counter : Bool) (qf : Qf) (i v : ℕ) (q : Qf)
    (run : set_slot qf i (low_bits v qf.bits_per_slot) ≡ done q) where
  unfoldable pub marked : Qf
  marked = mark counter q i

  marked_fields :
      (j : ℕ)
      → (marked.extensions j ≡ (if i == j then true else qf.extensions j))
        × (marked.runends j ≡ (if i == j then counter || qf.runends j else qf.runends j))
        × (get_slot marked j ≡ get_slot q j)
        × (marked.bits_per_slot ≡ qf.bits_per_slot)
        × (marked.xnslots ≡ qf.xnslots)
  unfolding marked
  marked_fields j =
      let m = mark_fields counter q i j in
      let f = set_slot_fields qf i _ q run in
      (
        m.0 ∙ ap (λ (e : ℕ → Bool). if i == j then true else e j) f.0,
        m.1 ∙ ap (λ (e : ℕ → Bool). if i == j then counter || e j else e j) f.1,
        m.2,
        m.3 ∙ f.2,
        m.4 ∙ f.3,
      )

  -- The slot itself, and every other one.
  itself :
      (j : ℕ)
      → (i == j) ≡ true
      → (marked.extensions j ≡ true)
        × (marked.runends j ≡ (counter || qf.runends j))
        × (qf.bits_per_slot ≤ 57 → get_slot marked j ≡ done (low_bits v qf.bits_per_slot))
  itself j t =
      let m = marked_fields j in
      (
        m.0 ∙ ap (λ (b : Bool). if b then true else qf.extensions j) t,
        m.1 ∙ ap (λ (b : Bool). if b then counter || qf.runends j else qf.runends j) t,
        λ narrow.
            m.2
            ∙ get_slot-set_slot qf i _ j
                (rw (slot_width-eq qf i narrow) (low_bits-lt v qf.bits_per_slot)) run
            ∙ ap (λ (b : Bool). if b then done (low_bits v qf.bits_per_slot) else get_slot qf j) t,
      )

  unequal : (j : ℕ) → (i == j) ≡ false → i ≢ j
  unequal j f e = ground arith

  other :
      (j : ℕ)
      → (i == j) ≡ false
      → (marked.extensions j ≡ qf.extensions j)
        × (marked.runends j ≡ qf.runends j)
        × (get_slot marked j ≡ get_slot qf j)
  other j f =
      let m = marked_fields j in
      (
        m.0 ∙ ap (λ (b : Bool). if b then true else qf.extensions j) f,
        m.1 ∙ ap (λ (b : Bool). if b then counter || qf.runends j else qf.runends j) f,
        m.2 ∙ get_slot-set_slot_ne qf i _ j (low_bits-lt v qf.bits_per_slot) (unequal j f) run,
      )

  first_digit : (j : ℕ) → (i == j) ≡ true → shr v ((j - i) * qf.bits_per_slot) ≡ v
  first_digit j t =
      let e : (j - i) * qf.bits_per_slot ≡ 0 =
        ap (λ (n : ℕ). n * qf.bits_per_slot) {x = j - i} {y = 0} (omega (arith, (==_iff i j).0 t))
        ∙ omega arith in
      rw e (omega arith)

  later_digit :
      (j : ℕ)
      → i + 1 ≤ j
      → shr (shr v qf.bits_per_slot) ((j - (i + 1)) * qf.bits_per_slot)
        ≡ shr v ((j - i) * qf.bits_per_slot)
  later_digit j le =
      shr-shr v qf.bits_per_slot ((j - (i + 1)) * qf.bits_per_slot)
      ∙ ap (λ (t : ℕ). shr v t)
          (omega (
            arith,
            add-mul (j - (i + 1)) 1 qf.bits_per_slot,
            ap (λ (t : ℕ). t * qf.bits_per_slot) {x = j - (i + 1) + 1} {y = j - i} (omega arith),
          ))

  behind : (j : ℕ) → (i == j) ≡ false → i ≤ j → i + 1 ≤ j
  behind j f le = ground arith

  apart : (end j : ℕ) → i + 1 ≤ end → j < i ⊎ end ≤ j → (i == j) ≡ false
  apart end j le o = ground arith

  wider : (end j : ℕ) → j < i ⊎ end ≤ j → j < i + 1 ⊎ end ≤ j
  wider end j (inl l) = inl (omega arith)
  wider end j (inr l) = inr l

  up_to : (j : ℕ) → (i == j) ≡ true → {end : ℕ} → j < i + 1 ⊎ end ≤ j
  up_to j t = inl (omega (arith, (==_iff i j).0 t))

  inside : (end : ℕ) → end ≤ i + 1 ⊎ end ≤ marked.xnslots → end ≤ i ⊎ end ≤ qf.xnslots
  inside end (inl l) = inr (omega (arith, (set_slot_fields qf i _ q run).4))
  inside end (inr l) = inr (omega (arith, (marked_fields i).4))

  pub slot-Wrote :
      (end : ℕ) (qf' : Qf)
      → Wrote counter marked (i + 1) end (shr v qf.bits_per_slot) qf'
      → Wrote counter qf i end v qf'
  slot-Wrote end qf' w = record {
    le = omega (arith, w.le);
    within = inside end w.within;
    same_bits = w.same_bits ∙ (marked_fields i).3;
    extension = λ j p r. elim (Bool-cases (i == j)) [
      | inl t ↦ w.extension_out j (up_to j t) ∙ (itself j t).0
      | inr f ↦ w.extension j (behind j f p) r
    ];
    runend = λ j p r. elim (Bool-cases (i == j)) [
      | inl t ↦ w.runend_out j (up_to j t) ∙ (itself j t).1
      | inr f ↦ w.runend j (behind j f p) r ∙ ap (λ (b : Bool). counter || b) (other j f).1
    ];
    digit = λ j p r narrow. elim (Bool-cases (i == j)) [
      | inl t ↦
          w.slot_out j (up_to j t)
          ∙ (itself j t).2 narrow
          ∙ ap (λ (d : ℕ). done (low_bits d qf.bits_per_slot)) (sym (first_digit j t))
      | inr f ↦
          w.digit j (behind j f p) r (subst (λ (n : ℕ). n ≤ 57) (sym (marked_fields i).3) narrow)
          ∙ ap (λ (b : ℕ). done (low_bits (shr (shr v qf.bits_per_slot) ((j - (i + 1)) * b)) b))
              (marked_fields i).3
          ∙ ap (λ (d : ℕ). done (low_bits d qf.bits_per_slot)) (later_digit j (behind j f p))
    ];
    extension_out = λ j o. w.extension_out j (wider end j o) ∙ (other j (apart end j w.le o)).0;
    runend_out = λ j o. w.runend_out j (wider end j o) ∙ (other j (apart end j w.le o)).1;
    slot_out = λ j o. w.slot_out j (wider end j o) ∙ (other j (apart end j w.le o)).2;
  }
