-- ===== src/Qf/Shifts/Slots.antt =====
-- get_slot of src/gqf.c after shift_remainders.
use ski_rental_adaptive_qf.Prelude.{
  ap, sym, true, false, ltb, leb, ◌&&◌, ℕ, zero, suc, ◌+◌, ◌-◌, ◌*◌, ◌≤◌, ◌<◌, ◌≡◌, refl, ◌∙◌, ◌≢◌,
  ◌⊎◌, inl, inr, arith, dec_lt, if◌then◌else◌, done,
}
use ski_rental_adaptive_qf.Qf.{Qf}
use ski_rental_adaptive_qf.Qf.Bits.{get_slot}
use ski_rental_adaptive_qf.Row.{Row, shift_row, field}
use ski_rental_adaptive_qf.Qf.Slots.{get_slot-field}
use ski_rental_adaptive_qf.Qf.Shifts.{shift_remainders}
use ski_rental_adaptive_qf.Row.Fields.{field-congr}
use ski_rental_adaptive_qf.Row.Shift.{moved_bit, shift_row_lem}

-- Fields that hold the same bits read the same, wherever they stand.
same_field :
    (n : ℕ) (r s : Row) (a c : ℕ)
    → ((k : ℕ) → k < n → r (a + k) ≡ s (c + k))
    → field r a n ≡ field s c n
unfolding field
same_field zero r s a c h = refl
same_field (suc n) r s a c h =
    let e0 : r a ≡ s c = here (a + 0) (c + 0) (omega arith) (omega arith) (h 0 (omega arith)) in
    let ih = same_field n r s (suc a) (suc c) (λ k lt.
      next (a + suc k) (c + suc k) k (omega arith) (omega arith) (h (suc k) (omega arith))) in
    rw (e0, ih)
  where
    here : (x y : ℕ) → x ≡ a → y ≡ c → r x ≡ s y → r a ≡ s c
    here x y p q e = (rw (p, q) at e)

    next : (x y k : ℕ) → x ≡ suc a + k → y ≡ suc c + k → r x ≡ s y → r (suc a + k) ≡ s (suc c + k)
    next x y k p q e = (rw (p, q) at e)

-- A stretch of bits that moved as a whole, read as a field.
moved_field :
    (r : Row) (first end b at : ℕ)
    → first ≤ end
    → 0 < b
    → b < 64
    → first + b ≤ at
    → at + b ≤ end
    → field (shift_row r first end b) at b ≡ field r (at - b) b
moved_field r first end b at h z w lo hi =
    same_field b (shift_row r first end b) r at (at - b)
      (λ k lt. shift_row_lem r first end b (at + k) h z w ∙ inside k (omega arith) (omega arith))
  where
    inside :
        (k : ℕ)
        → first + b ≤ at + k
        → at + k < end
        → moved_bit r first end b (at + k) ≡ r (at - b + k)
    inside k low high = let e1 : at + k - b ≡ at - b + k = omega arith in ground arith

kept_field :
    (r : Row) (first end b at n : ℕ)
    → first ≤ end
    → 0 < b
    → b < 64
    → (at + n ≤ first) ⊎ (end ≤ at)
    → field (shift_row r first end b) at n ≡ field r at n
kept_field r first end b at n h z w apart =
    field-congr (shift_row r first end b) r at n
      (λ i p q. shift_row_lem r first end b i h z w ∙ ground arith)

-- Making room moves the slots of [start_index, empty_index) up by one: a slot of
-- (start_index, empty_index] reads as the slot below it did, and every slot outside
-- [start_index, empty_index] as before, for slots of 1 to 57 bits.
pub get_slot-shift_remainders :
    (qf : Qf) (start_index empty_index i : ℕ)
    → 0 < qf.bits_per_slot
    → qf.bits_per_slot ≤ 57
    → start_index ≤ empty_index
    → i < qf.xnslots
    → i ≢ start_index
    → get_slot (shift_remainders qf start_index empty_index) i
      ≡ get_slot qf (if ltb start_index i && leb i empty_index then i - 1 else i)
unfolding shift_remainders
get_slot-shift_remainders qf s e i z w h lt ne = elim (dec_lt i s) [
  | yes low ↦ let test : (ltb s i && leb i e) ≡ false = ground arith in rw test (outside (inl low))
  | no ge ↦ elim (dec_lt e i) [
    | yes high ↦
        let test : (ltb s i && leb i e) ≡ false = ground arith in rw test (outside (inr high))
    | no le ↦
        let test : (ltb s i && leb i e) ≡ true = ground arith in
        rw test (inside (omega arith) (omega arith))
  ]
]
  where
    b : ℕ
    b = qf.bits_per_slot

    grow : (x y : ℕ) → x ≤ y → x * b ≤ y * b
    grow x y p = grind arith

    next : (x : ℕ) → (x + 1) * b ≡ x * b + b
    next x = grind arith

    prev : (x : ℕ) → 0 < x → (x - 1) * b ≡ x * b - b
    prev zero p = absurd (omega arith)
    prev (suc x) p =
        let e1 : suc x - 1 ≡ x = omega arith in
        let e2 : suc x ≡ x + 1 = omega arith in rw (e1, e2, next x) (omega arith)

    same :
        (x y : ℕ)
        → y < qf.xnslots
        → field (shift_remainders qf s e).remainders (x * b) b ≡ field qf.remainders (y * b) b
        → x < qf.xnslots
        → get_slot (shift_remainders qf s e) x ≡ get_slot qf y
    same x y ly l lx =
        get_slot-field (shift_remainders qf s e) x w lx
        ∙ ap (λ (n : ℕ). done n) l
        ∙ sym (get_slot-field qf y w ly)

    outside : (i < s) ⊎ (e < i) → get_slot (shift_remainders qf s e) i ≡ get_slot qf i
    outside apart =
        let l =
          kept_field qf.remainders (s * b) ((e + 1) * b) b (i * b) b (grow s (e + 1) (omega arith))
            z (omega arith)
            (elim apart [
              | inl low ↦ inl (omega (arith, grow (i + 1) s (omega arith), next i))
              | inr high ↦ inr (grow (e + 1) i (omega arith))
            ]) in
        same i i lt l lt

    inside : s < i → i ≤ e → get_slot (shift_remainders qf s e) i ≡ get_slot qf (i - 1)
    inside lo hi =
        let below : (i - 1) * b ≡ i * b - b = prev i (omega arith) in
        let l =
          moved_field qf.remainders (s * b) ((e + 1) * b) b (i * b) (grow s (e + 1) (omega arith)) z
            (omega arith) (omega (arith, grow (s + 1) i (omega arith), next s))
            (omega (arith, grow (i + 1) (e + 1) (omega arith), next i)) in
        same i (i - 1) (omega arith) (l ∙ ap (λ (x : ℕ). field qf.remainders x b) (sym below)) lt
