-- ===== src/Qf/Merge/Order.antt =====
-- The order that merging follows (_finger_cmp of src/gqf.c).
use ski_rental_adaptive_qf.Prelude.{
  ℕ, zero, suc, ◌+◌, ◌*◌, ◌/◌, ◌%◌, ◌^◌, ◌≤◌, ◌<◌, ◌≡◌, refl, sym, ap, ◌∙◌, ◌≢◌, ◌↔◌, inl, inr,
  true, false, arith, ltb, ◌==◌, if◌then◌else◌, Bool-cases, Outcome, done, if-true, if-false, ℤ,
  pos, negsuc,
}
use ski_rental_adaptive_qf.Hash.{shr, low_bits}
use ski_rental_adaptive_qf.Arith.{pow_pos, pow-add}
use ski_rental_adaptive_qf.Qf.Merge.{ext_cmp, Finger, finger_cmp}
use native.Mathlib.Nat.{div-add-mod, pow-le-pow_right, div-lt_iff_lt-mul}

abbrev pub negate : ℤ → ℤ
negate (pos zero) = pos 0
negate (pos (suc n)) = negsuc n
negate (negsuc n) = pos (suc n)

eq-sym : (a b : ℕ) → (a == b) ≡ false → (b == a) ≡ false
eq-sym a b e = ground arith

not_lt : (a b : ℕ) → ltb a b ≡ false → b ≤ a
not_lt a b e = ground arith

lt_asym : (a b : ℕ) → ltb a b ≡ true → ltb b a ≡ false
lt_asym a b e = ground arith

lt_ne : (a b : ℕ) → ltb a b ≡ true → a ≢ b
lt_ne a b e = ground arith

same_finger : {a b : Finger} → a.rem ≡ b.rem → a.ext ≡ b.ext → a.ext_len ≡ b.ext_len → a ≡ b
same_finger p q r = cc

-- What a comparison of two values that are alike says, and that of the same values swapped.
Compares : Type 0 → Outcome ℤ → Outcome ℤ → Type 0
Compares Alike m n = (o : ℤ) × (m ≡ done o) × (n ≡ done (negate o)) × ((o ≡ pos 0) ↔ Alike)

negate-negate : (o : ℤ) → negate (negate o) ≡ o
negate-negate (pos zero) = refl
negate-negate (pos (suc n)) = refl
negate-negate (negsuc n) = refl

negate-zero : (o : ℤ) → negate o ≡ pos 0 → o ≡ pos 0
negate-zero (pos zero) e = refl
negate-zero (pos (suc n)) e = cc
negate-zero (negsuc n) e = cc

Compares-swap :
    (A B : Type 0) (m n : Outcome ℤ) → (A → B) → (B → A) → Compares A m n → Compares B n m
unfolding Compares
Compares-swap A B m n to from c = (
  negate c.0,
  c.2,
  c.1 ∙ sym (ap done (negate-negate c.0)),
  (λ e. to (c.3.0 (negate-zero c.0 e)), λ s. ap negate (c.3.1 (from s))),
)

module _ (bits : ℕ) (nz : 0 < bits) where
  lengths : (la lb : ℕ) → ℤ
  lengths la lb = if la == lb then pos 0 else if ltb la lb then negsuc 0 else pos 1

  lengths_lem :
      (la lb : ℕ) → (lengths lb la ≡ negate (lengths la lb)) × ((lengths la lb ≡ pos 0) ↔ (la ≡ lb))
  unfolding lengths
  lengths_lem la lb = (ground arith, ground arith)

  same_parts : (a b : ℕ) → low_bits a bits ≡ low_bits b bits → shr a bits ≡ shr b bits → a ≡ b
  same_parts a b p q =
      sym (div-add-mod a (2 ^ bits))
      ∙ ap (λ (t : ℕ). 2 ^ bits * t + a % 2 ^ bits) q
      ∙ ap (λ (t : ℕ). 2 ^ bits * (b / 2 ^ bits) + t) p
      ∙ div-add-mod b (2 ^ bits)

  shr-lt : (f a : ℕ) → a < 2 ^ suc f → shr a bits < 2 ^ f
  shr-lt f a lt =
      (div-lt_iff_lt-mul (pow_pos bits)).1
        (omega (arith, pow-add f bits, pow-le-pow_right {n = 2} (omega arith) (more f)))
    where
      more : (f : ℕ) → suc f ≤ f + bits
      more f = omega arith

  -- The four ways on from the test of the loop.
  module _ (f a la b lb : ℕ) where
    step_same : (a == b) ≡ true → ext_cmp (suc f) bits a la b lb ≡ done (lengths la lb)
    unfolding ext_cmp lengths
    step_same e = ground arith

    step_lower :
        (a == b) ≡ false
        → ltb (low_bits a bits) (low_bits b bits) ≡ true
        → ext_cmp (suc f) bits a la b lb ≡ done (negsuc 0)
    unfolding ext_cmp
    step_lower e l = ground arith

    step_upper :
        (a == b) ≡ false
        → ltb (low_bits a bits) (low_bits b bits) ≡ false
        → ltb (low_bits b bits) (low_bits a bits) ≡ true
        → ext_cmp (suc f) bits a la b lb ≡ done (pos 1)
    unfolding ext_cmp
    step_upper e l u = ground arith

    step_on :
        (a == b) ≡ false
        → ltb (low_bits a bits) (low_bits b bits) ≡ false
        → ltb (low_bits b bits) (low_bits a bits) ≡ false
        → ext_cmp (suc f) bits a la b lb ≡ ext_cmp f bits (shr a bits) la (shr b bits) lb
    unfolding ext_cmp
    step_on e l u = ground arith

  Alike : ℕ → ℕ → ℕ → ℕ → Type 0
  Alike a la b lb = (a ≡ b) × (la ≡ lb)

  same_ext :
      (f a la b lb : ℕ)
      → (a == b) ≡ true
      → Compares (Alike a la b lb) (ext_cmp (suc f) bits a la b lb) (ext_cmp (suc f) bits b lb a la)
  unfolding Compares Alike
  same_ext f a la b lb e = (
    lengths la lb,
    step_same f a la b lb e,
    step_same f b lb a la (ground arith) ∙ ap done (lengths_lem la lb).0,
    (λ z. (ground arith, (lengths_lem la lb).1.0 z), λ s. (lengths_lem la lb).1.1 s.1),
  )

  low_differs : (a b : ℕ) → low_bits a bits < low_bits b bits → a ≢ b
  low_differs a b lt e = absurd (omega (arith, ap (λ (t : ℕ). low_bits t bits) e))

  ne_same : (a la b lb : ℕ) → (a == b) ≡ false → Alike a la b lb → ⊥
  unfolding Alike
  ne_same a la b lb e s = ground arith

  same_shr :
      (a la b lb : ℕ)
      → low_bits a bits ≡ low_bits b bits
      → Alike (shr a bits) la (shr b bits) lb
      → Alike a la b lb
  unfolding Alike
  same_shr a la b lb p s = (same_parts a b p s.0, s.1)

  shr_same : (a la b lb : ℕ) → Alike a la b lb → Alike (shr a bits) la (shr b bits) lb
  unfolding Alike
  shr_same a la b lb s = (ap (λ (t : ℕ). shr t bits) s.0, s.1)

  -- Where the digits differ, the lower one decides.
  lower_first :
      (f a la b lb : ℕ)
      → (a == b) ≡ false
      → ltb (low_bits a bits) (low_bits b bits) ≡ true
      → Compares (Alike a la b lb) (ext_cmp (suc f) bits a la b lb) (ext_cmp (suc f) bits b lb a la)
  unfolding Compares
  lower_first f a la b lb e l = (
    negsuc 0,
    step_lower f a la b lb e l,
    step_upper f b lb a la (eq-sym a b e) (ground arith) l,
    (λ z. cc, λ s. absurd (ne_same a la b lb e s)),
  )

  sym_same : (a la b lb : ℕ) → Alike a la b lb → Alike b lb a la
  unfolding Alike
  sym_same a la b lb s = (sym s.0, sym s.1)

  -- Where the digits are the same, the rest decides.
  same_digits :
      (f a la b lb : ℕ)
      → (a == b) ≡ false
      → ltb (low_bits a bits) (low_bits b bits) ≡ false
      → ltb (low_bits b bits) (low_bits a bits) ≡ false
      → Compares
          (Alike (shr a bits) la (shr b bits) lb)
          (ext_cmp (suc f) bits (shr a bits) la (shr b bits) lb)
          (ext_cmp (suc f) bits (shr b bits) lb (shr a bits) la)
      → Compares
          (Alike a la b lb)
          (ext_cmp (suc (suc f)) bits a la b lb)
          (ext_cmp (suc (suc f)) bits b lb a la)
  unfolding Compares
  same_digits f a la b lb e l u c = (
    c.0,
    step_on (suc f) a la b lb e l u ∙ c.1,
    step_on (suc f) b lb a la (eq-sym a b e) u l ∙ c.2,
    (
      λ z. same_shr a la b lb (omega (arith, not_lt _ _ l, not_lt _ _ u)) (c.3.0 z),
      λ s. c.3.1 (shr_same a la b lb s),
    ),
  )

  ext_cmp-Compares :
      (f a la b lb : ℕ)
      → a < 2 ^ f
      → b < 2 ^ f
      → Compares (Alike a la b lb) (ext_cmp (suc f) bits a la b lb) (ext_cmp (suc f) bits b lb a la)
  ext_cmp-Compares zero a la b lb p q =
      same_ext zero a la b lb
        (let x : a ≡ 0 = omega arith in let y : b ≡ 0 = omega arith in rw (x, y) refl)
  ext_cmp-Compares (suc f) a la b lb p q = elim (Bool-cases (a == b)) [
    | inl e ↦ same_ext (suc f) a la b lb e
    | inr e ↦ elim (Bool-cases (ltb (low_bits a bits) (low_bits b bits))) [
      | inl l ↦ lower_first (suc f) a la b lb e l
      | inr l ↦ elim (Bool-cases (ltb (low_bits b bits) (low_bits a bits))) [
        | inl u ↦
            Compares-swap (Alike b lb a la) (Alike a la b lb) _ _ (sym_same b lb a la)
              (sym_same a la b lb) (lower_first (suc f) b lb a la (eq-sym a b e) u)
        | inr u ↦
            same_digits f a la b lb e l u
              (ext_cmp-Compares f (shr a bits) la (shr b bits) lb (shr-lt f a p) (shr-lt f b q))
      ]
    ]
  ]

  -- _finger_cmp comes to a result for any two fingerprints with extensions of 64 bits, if a slot has
  -- bits: that is 0 exactly if the two are the same, and the negative with the two swapped.
  pub finger_cmp_lem :
      (a b : Finger)
      → a.ext < 2 ^ 64
      → b.ext < 2 ^ 64
      → (order : ℤ) × (finger_cmp bits a b ≡ done order)
        × (finger_cmp bits b a ≡ done (negate order))
        × ((order ≡ pos 0) ↔ (a ≡ b))
  unfolding finger_cmp Compares Alike
  finger_cmp_lem a b p q = elim (Bool-cases (ltb a.rem b.rem)) [
    | inl l ↦ (
      negsuc 0,
      if-true _ _ l refl,
      if-false _ _ (lt_asym a.rem b.rem l) (if-true _ _ l refl),
      (λ z. cc, λ s. absurd (lt_ne a.rem b.rem l (ap (λ (f : Finger). f.rem) s))),
    )
    | inr l ↦ elim (Bool-cases (ltb b.rem a.rem)) [
      | inl u ↦ (
        pos 1,
        if-false _ _ l (if-true _ _ u refl),
        if-true _ _ u refl,
        (λ z. cc, λ s. absurd (lt_ne b.rem a.rem u (ap (λ (f : Finger). f.rem) (sym s)))),
      )
      | inr u ↦
          let c = ext_cmp-Compares 64 a.ext a.ext_len b.ext b.ext_len p q in
          (
            c.0,
            if-false _ _ l (if-false _ _ u c.1),
            if-false _ _ u (if-false _ _ l c.2),
            (
              λ z. same_finger (omega (arith, not_lt _ _ l, not_lt _ _ u)) (c.3.0 z).0 (c.3.0 z).1,
              λ s. c.3.1 (ap (λ (f : Finger). f.ext) s, ap (λ (f : Finger). f.ext_len) s),
            ),
          )
    ]
  ]
