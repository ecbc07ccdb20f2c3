-- ===== src/Qf/Merge/Placed.antt =====
-- The item that the parts of _merge_insert in src/gqf.c make up, one behind the other.
use ski_rental_adaptive_qf.Prelude.{
  ℕ, ◌+◌, ◌-◌, ◌*◌, ◌^◌, ◌≤◌, ◌<◌, ◌≡◌, refl, sym, ap, ◌∙◌, ◌⊎◌, inl, inr, Bool, true, false, arith,
  ltb, ◌==◌, if◌then◌else◌, ltb→lt, Bool-cases, done, if-true, all-done, all-if,
}
use ski_rental_adaptive_qf.Hash.{shr, low_bits}
use ski_rental_adaptive_qf.Qf.{Qf, rounds}
use ski_rental_adaptive_qf.Qf.Bits.{get_slot, set_slot}
use ski_rental_adaptive_qf.Qf.Merge.{Finger, put_counters}
use ski_rental_adaptive_qf.Qf.Merge.Written.{Wrote, nothing-Wrote, set_slot_fields}
use ski_rental_adaptive_qf.Qf.Merge.Loops.{put_counters-Wrote}
use ski_rental_adaptive_qf.Qf.Merge.Frame.{frame}
use ski_rental_adaptive_qf.Qf.Merge.ReadBack.{Item}
use mathlib.Core.Path.{subst}
use ski_rental_adaptive_qf.Qf.Slots.{slot_width-eq, get_slot-set_slot, get_slot-set_slot_ne}

pub offset-Item :
    (b : Bool) (q : Qf) (offset : ℕ → ℕ) {index mid behind : ℕ} {f : Finger} {count : ℕ}
    → Item q index mid behind f count
    → Item (if b then q else record q { offset = offset }) index mid behind f count
unfolding get_slot
offset-Item true q offset w = w
offset-Item false q offset w = record {
  room = w.room;
  le_mid = w.le_mid;
  le_behind = w.le_behind;
  first = w.first;
  start = w.start;
  exts = w.exts;
  counters = w.counters;
  stop = w.stop;
  ext_fits = w.ext_fits;
  count_fits = w.count_fits;
}

-- The counter slots that a count asks for: none for 1.
abbrev pub CountFits : ℕ → ℕ → ℕ → ℕ → Type 0
CountFits mid behind bits count =
    ((mid < behind) × (count < 2 ^ ((behind - mid) * bits))) ⊎ ((mid ≡ behind) × (count ≡ 1))

needs_slots :
    (mid behind bits count : ℕ) → 1 < count → count < 2 ^ ((behind - mid) * bits) → mid < behind
needs_slots mid behind bits count many fits = elim (Bool-cases (ltb mid behind)) [
  | inl lt ↦ ltb→lt mid behind lt
  | inr ge ↦
      let gap : behind - mid ≡ 0 = ground arith in
      let e : (behind - mid) * bits ≡ 0 = ap (λ (t : ℕ). t * bits) gap ∙ omega arith in
      absurd (omega (arith, ap (λ (t : ℕ). 2 ^ t) e))
]

pub put_count-Wrote :
    (n : ℕ) (qf : Qf) (mid count : ℕ)
    → 0 < count
    → (r : ℕ × Qf) → (if ltb 1 count then put_counters n qf mid count else done (mid, qf)) ≡ done r
    → CountFits mid r.0 qf.bits_per_slot count × Wrote true qf mid r.0 count r.1
put_count-Wrote n qf mid count some_count =
    all-if P (ltb 1 count) _ _
      (λ many r run.
        let (fits, w) = put_counters-Wrote n qf mid count r run in
        (inl (needs_slots mid r.0 qf.bits_per_slot count (ltb→lt 1 count many) fits, fits), w))
      (λ one. all-done P (mid, qf) (inr (refl, ground arith), nothing-Wrote true qf mid count))
  where
    P : ℕ × Qf → Type 0
    P r = CountFits mid r.0 qf.bits_per_slot count × Wrote true qf mid r.0 count r.1

-- The slots before an item.
pub record SameBefore (index : ℕ) (qf qf' : Qf) : Type 0 where
  pub extensions : (j : ℕ) → j < index → qf'.extensions j ≡ qf.extensions j
  pub runends : (j : ℕ) → j < index → qf'.runends j ≡ qf.runends j
  pub slots : (j : ℕ) → j < index → get_slot qf' j ≡ get_slot qf j

module _ (qf : Qf) (index : ℕ)
    (unused : (j : ℕ) → index ≤ j → (qf.extensions j ≡ false) × (qf.runends j ≡ false)) (f : Finger)
    (count : ℕ) (fits : f.rem < 2 ^ qf.bits_per_slot) (narrow : qf.bits_per_slot ≤ 57) (qf₁ : Qf)
    (e₁ : set_slot qf index f.rem ≡ done qf₁) (mid : ℕ) (qf₂ : Qf)
    (w₂ : Wrote false qf₁ (index + 1) mid f.ext qf₂) (behind : ℕ) (qf₃ : Qf)
    (w₃ : Wrote true qf₂ mid behind count qf₃) where
  mid_within : mid ≤ qf.xnslots
  mid_within =
      let g = set_slot_fields qf index f.rem qf₁ e₁ in
      elim w₂.within [ inl l ↦ omega (arith, g.4) | inr l ↦ omega (arith, g.3) ]

  kept :
      frame qf₂ ≡ frame qf
      → frame qf₃ ≡ frame qf
      → qf.xnslots ≤ 64 * qf.nblocks
      → behind < rounds qf₃
  kept e₂ e₃ le =
      let x : qf₂.xnslots ≡ qf.xnslots = ap (λ t. t.0) e₂ in
      let n : qf₃.nblocks ≡ qf.nblocks = ap (λ t. t.1) e₃ in
      elim w₃.within [ inl l ↦ omega (arith, mid_within) | inr l ↦ omega arith ]

  same_bits : qf₃.bits_per_slot ≡ qf.bits_per_slot
  same_bits = w₃.same_bits ∙ w₂.same_bits ∙ (set_slot_fields qf index f.rem qf₁ e₁).2

  first_slot : get_slot qf₁ index ≡ done f.rem
  first_slot =
      get_slot-set_slot qf index f.rem index (rw (slot_width-eq qf index narrow) fits) e₁
      ∙ if-true (index == index) (get_slot qf index) (ground arith) refl

  narrow_at : {b : ℕ} → b ≡ qf.bits_per_slot → b ≤ 57
  narrow_at e = subst (λ (n : ℕ). n ≤ 57) (sym e) narrow

  -- A digit of the one width is that of the other.
  digit_bits :
      (v x : ℕ) {b c : ℕ}
      → b ≡ c
      → done (low_bits (shr v (x * b)) b) ≡ done (low_bits (shr v (x * c)) c)
  digit_bits v x e = ap (λ (b : ℕ). done (low_bits (shr v (x * b)) b)) e

  pub written-Item :
      frame qf₂ ≡ frame qf
      → frame qf₃ ≡ frame qf
      → qf.xnslots ≤ 64 * qf.nblocks
      → f.ext < 2 ^ ((mid - (index + 1)) * qf.bits_per_slot)
      → CountFits mid behind qf₂.bits_per_slot count
      → Item qf₃ index mid behind f count
  written-Item e₂ e₃ blocks ext_fits count_fits = record {
    room = kept e₂ e₃ blocks;
    le_mid = w₂.le;
    le_behind = w₃.le;
    first =
        w₃.slot_out index (inl (omega (arith, w₂.le)))
        ∙ w₂.slot_out index (inl (omega arith))
        ∙ first_slot;
    start =
        w₃.extension_out index (inl (omega (arith, w₂.le)))
        ∙ w₂.extension_out index (inl (omega arith))
        ∙ ap (λ (e : ℕ → Bool). e index) (set_slot_fields qf index f.rem qf₁ e₁).0
        ∙ (unused index (omega arith)).0;
    exts = λ j p r. (
      w₃.extension_out j (inl r) ∙ w₂.extension j p r,
      w₃.runend_out j (inl r)
          ∙ w₂.runend j p r
          ∙ ap (λ (e : ℕ → Bool). e j) (set_slot_fields qf index f.rem qf₁ e₁).1
          ∙ (unused j (omega arith)).1,
      w₃.slot_out j (inl r)
          ∙ w₂.digit j p r (narrow_at (set_slot_fields qf index f.rem qf₁ e₁).2)
          ∙ digit_bits f.ext (j - (index + 1)) (sym w₂.same_bits ∙ sym w₃.same_bits),
    );
    counters = λ j p r. (
      w₃.extension j p r,
      w₃.runend j p r,
      w₃.digit j p r (narrow_at (w₂.same_bits ∙ (set_slot_fields qf index f.rem qf₁ e₁).2))
          ∙ digit_bits count (j - mid) (sym w₃.same_bits),
    );
    stop =
        w₃.extension_out behind (inr (omega arith))
        ∙ w₂.extension_out behind (inr w₃.le)
        ∙ ap (λ (e : ℕ → Bool). e behind) (set_slot_fields qf index f.rem qf₁ e₁).0
        ∙ (unused behind (omega (arith, w₂.le, w₃.le))).0;
    ext_fits = subst (λ (b : ℕ). f.ext < 2 ^ ((mid - (index + 1)) * b)) (sym same_bits) ext_fits;
    count_fits = subst (λ (b : ℕ). CountFits mid behind b count) (sym w₃.same_bits) count_fits;
  }

  pub before : SameBefore index qf qf₃
  before = record {
    extensions = λ j p.
        w₃.extension_out j (inl (omega (arith, w₂.le)))
        ∙ w₂.extension_out j (inl (omega arith))
        ∙ ap (λ (e : ℕ → Bool). e j) (set_slot_fields qf index f.rem qf₁ e₁).0;
    runends = λ j p.
        w₃.runend_out j (inl (omega (arith, w₂.le)))
        ∙ w₂.runend_out j (inl (omega arith))
        ∙ ap (λ (e : ℕ → Bool). e j) (set_slot_fields qf index f.rem qf₁ e₁).1;
    slots = λ j p.
        w₃.slot_out j (inl (omega (arith, w₂.le)))
        ∙ w₂.slot_out j (inl (omega arith))
        ∙ get_slot-set_slot_ne qf index f.rem j fits (omega arith) e₁;
  }

pub offset-SameBefore :
    (b : Bool) (q : Qf) (offset : ℕ → ℕ) (index : ℕ) (qf : Qf)
    → SameBefore index qf q
    → SameBefore index qf (if b then q else record q { offset = offset })
unfolding get_slot
offset-SameBefore true q offset index qf w = w
offset-SameBefore false q offset index qf w = record {
  extensions = w.extensions;
  runends = w.runends;
  slots = w.slots;
}
