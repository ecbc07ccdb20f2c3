-- ===== src/Qf/Extend/Recount.antt =====
-- What the count query (src/gqf.c) finds once one counter slot was written.
use mathlib.Core.Bool.{true≢false}
use ski_rental_adaptive_qf.Prelude.{
  ◌%◌, ℕ, zero, suc, ◌+◌, ◌-◌, ◌*◌, ◌^◌, ◌≤◌, ◌<◌, bit_or, ◌≡◌, refl, sym, ap, ◌∙◌, ◌≢◌, inl, inr,
  Bool, true, false, not, some, arith, ℕ_discrete, if◌then◌else◌, Bool-cases, done, abort, spin,
  ◌>>=◌, assert, >>=-eq-done, >>=-cong,
}
use ski_rental_adaptive_qf.Hash.{shl}
use ski_rental_adaptive_qf.Qf.{Qf, rounds}
use ski_rental_adaptive_qf.Qf.Bits.{
  is_runend, is_extension, is_counter, is_extension_or_counter, get_slot,
}
use ski_rental_adaptive_qf.Qf.SlotInfo.{SlotInfo, get_slot_info}
use ski_rental_adaptive_qf.Qf.Query.Counts.{count_index_loop}
use ski_rental_adaptive_qf.Row.{Row}
use ski_rental_adaptive_qf.Qf.SlotInfo.{read_slots}
use ski_rental_adaptive_qf.Qf.Runs.{skip_extensions}
use ski_rental_adaptive_qf.Qf.Metadata.{with_contents, skip_extensions-with_contents}
use ski_rental_adaptive_qf.Arith.{zero-bit_or}

pub read_slots-more :
    (test : Qf → ℕ → Bool) (fuel : ℕ) (qf : Qf) (from curr acc : ℕ)
    → test qf curr ≡ true
    → read_slots test (suc fuel) qf from curr acc ≡ (
        get_slot qf curr >>= λ slot.
        read_slots test fuel qf from
          (curr + 1)
          (bit_or acc (shl slot ((curr - from) * qf.bits_per_slot % 64))))
unfolding read_slots
read_slots-more test fuel qf from curr acc h = rw (h, read_slots) refl

pub read_slots-stop :
    (test : Qf → ℕ → Bool) (fuel : ℕ) (qf : Qf) (from curr acc : ℕ)
    → test qf curr ≡ false
    → read_slots test (suc fuel) qf from curr acc ≡ done (acc, curr)
unfolding read_slots
read_slots-stop test fuel qf from curr acc h = rw (h, read_slots) refl

-- The two walks of get_slot_info.
pub get_slot_info-parts :
    (qf : Qf) (index : ℕ) {info : SlotInfo}
    → get_slot_info qf index ≡ done info
    → (ext : ℕ) × (curr : ℕ) × (count : ℕ) × (stop : ℕ) × (read_slots is_extension
          (rounds qf)
          qf
          (index + 1)
          (index + 1)
          0
        ≡ done (ext, curr))
      × (read_slots is_counter (rounds qf) qf curr curr (if is_counter qf curr then 0 else 1)
          ≡ done (count, stop))
      × (info ≡ record {
        ext = ext;
        ext_slots = curr - (index + 1);
        count = count;
        count_slots = stop - curr;
      })
unfolding get_slot_info
get_slot_info-parts qf index {info} h =
    let (_, _, run) = >>=-eq-done (assert (not (is_extension_or_counter qf index))) _ h in
    let (p, e, run₂) =
      >>=-eq-done (read_slots is_extension (rounds qf) qf (index + 1) (index + 1) 0) _ run in
    let (q, g, last) =
      >>=-eq-done
        (read_slots is_counter (rounds qf) qf p.1 p.1 (if is_counter qf p.1 then 0 else 1)) _
        run₂ in
    (
      p.0,
      p.1,
      q.0,
      q.1,
      e,
      g,
      sym (ap (λ o. elim o [ done x ↦ x | abort ↦ info | spin ↦ info ]) last),
    )

pub get_slot_info-of :
    (qf : Qf) (index ext curr count stop : ℕ)
    → is_extension_or_counter qf index ≡ false
    → read_slots is_extension (rounds qf) qf (index + 1) (index + 1) 0 ≡ done (ext, curr)
    → read_slots is_counter (rounds qf) qf curr curr (if is_counter qf curr then 0 else 1)
      ≡ done (count, stop)
    → get_slot_info qf index
      ≡ done (record {
        ext = ext;
        ext_slots = curr - (index + 1);
        count = count;
        count_slots = stop - curr;
      })
unfolding get_slot_info
get_slot_info-of qf index ext curr count stop f e g = rw (f, e, g) refl

pub skip_extensions-le :
    (fuel : ℕ) (qf : Qf) (i : ℕ) {j : ℕ} → skip_extensions fuel qf i ≡ done j → i ≤ j
unfolding skip_extensions
skip_extensions-le zero qf i h = cc
skip_extensions-le (suc fuel) qf i h = grind (arith, skip_extensions-le fuel qf (i + 1))

-- The walk of the count query moves up.
count_index_loop-le :
    (fuel : ℕ) (qf : Qf) (hash rank i : ℕ) {c index r : ℕ}
    → count_index_loop fuel qf hash rank i ≡ done (some (c, index), r)
    → i ≤ index
unfolding count_index_loop
count_index_loop-le zero qf hash rank i h = cc
count_index_loop-le (suc fuel) qf hash rank i h =
    grind (arith, count_index_loop-le fuel qf hash, skip_extensions-le (rounds qf) qf (i + 1))

counter_value :
    (qf : Qf) (i v : ℕ)
    → v < 2 ^ 64
    → is_counter qf i ≡ true
    → bit_or (if is_counter qf i then 0 else 1) (shl v ((i - i) * qf.bits_per_slot % 64)) ≡ v
counter_value qf i v small c =
    let z : (i - i) * qf.bits_per_slot % 64 ≡ 0 = grind arith in
    rw (c, z) (zero-bit_or (shl v 0) ∙ omega arith)

-- An item stands in a slot, and its counter behind it.
module _ (qf : Qf) (r : Row) (n : ℕ) (l : ℕ → Bool) (index : ℕ)
    (first : is_extension_or_counter qf index ≡ false)
    (same : (j : ℕ) → j ≢ index + 1 → get_slot (with_contents qf r n l) j ≡ get_slot qf j) where
  abbrev qf' : Qf
  qf' = with_contents qf r n l

  -- A walk over extension or counter slots in front of the item stops in front of it.
  read_slots-stops :
      (test : Qf → ℕ → Bool) (fuel from curr acc : ℕ) {res : ℕ × ℕ}
      → test qf index ≡ false
      → curr ≤ index
      → read_slots test fuel qf from curr acc ≡ done res
      → res.1 ≤ index
  unfolding read_slots
  read_slots-stops test zero from curr acc out le h = cc
  read_slots-stops test (suc fuel) from curr acc {res} out le h = elim (Bool-cases (test qf curr)) [
    | inl more ↦
        let ne : curr ≢ index = λ e. true≢false (sym more ∙ ap (test qf) e ∙ out) in
        let run = sym (read_slots-more test fuel qf from curr acc more) ∙ h in
        let (slot, e, g) = >>=-eq-done (get_slot qf curr) _ run in
        read_slots-stops test fuel from (curr + 1) _ out (omega arith) g
    | inr stop ↦
        let last = sym (read_slots-stop test fuel qf from curr acc stop) ∙ h in ground arith
  ]

  read_slots-same :
      (test : Qf → ℕ → Bool) (fuel from curr acc : ℕ)
      → ((i : ℕ) → test qf' i ≡ test qf i)
      → test qf index ≡ false
      → curr ≤ index
      → read_slots test fuel qf' from curr acc ≡ read_slots test fuel qf from curr acc
  unfolding read_slots
  read_slots-same test zero from curr acc t out le = refl
  read_slots-same test (suc fuel) from curr acc t out le = elim (Bool-cases (test qf curr)) [
    | inl more ↦
        let ne : curr ≢ index = λ e. true≢false (sym more ∙ ap (test qf) e ∙ out) in
        read_slots-more test fuel qf' from curr acc (t curr ∙ more)
        ∙ >>=-cong (get_slot qf' curr) (same curr (λ e. omega arith))
            (λ slot e. read_slots-same test fuel from (curr + 1) _ t out (omega arith))
        ∙ sym (read_slots-more test fuel qf from curr acc more)
    | inr stop ↦
        read_slots-stop test fuel qf' from curr acc (t curr ∙ stop)
        ∙ sym (read_slots-stop test fuel qf from curr acc stop)
  ]

  -- The walks over an item in front of the one counted are as before.
  get_slot_info-before : (i : ℕ) → i < index → get_slot_info qf' i ≡ get_slot_info qf i
  unfolding get_slot_info is_extension is_counter is_extension_or_counter
  get_slot_info-before i lt =
      let ext : is_extension qf index ≡ false = ground arith in
      let cnt : is_counter qf index ≡ false = ground arith in
      let one =
        read_slots-same is_extension (rounds qf) (i + 1) (i + 1) 0 (λ j. refl) ext (omega arith) in
      let two : (p : ℕ × ℕ)
          → p.1 ≤ index
          → (acc : ℕ)
          → read_slots is_counter (rounds qf) qf' p.1 p.1 acc
            ≡ read_slots is_counter (rounds qf) qf p.1 p.1 acc =
        λ p le acc. read_slots-same is_counter (rounds qf) p.1 p.1 acc (λ j. refl) cnt le in
      >>=-cong (assert (not (is_extension_or_counter qf i))) refl (λ t e.
        >>=-cong (read_slots is_extension (rounds qf) qf' (i + 1) (i + 1) 0) one (λ p e.
          ap
            (λ m. m >>= λ q. done (record {
              ext = p.0;
              ext_slots = p.1 - (i + 1);
              count = q.0;
              count_slots = q.1 - p.1;
            }))
            (two p
              (read_slots-stops is_extension (rounds qf) (i + 1) (i + 1) 0 ext (omega arith)
                (sym one ∙ e))
              _)))

  read_slots-le :
      (test : Qf → ℕ → Bool) (fuel from curr acc : ℕ) {res : ℕ × ℕ}
      → read_slots test fuel qf from curr acc ≡ done res
      → curr ≤ res.1
  unfolding read_slots
  read_slots-le test zero from curr acc h = cc
  read_slots-le test (suc fuel) from curr acc {res} h = elim (Bool-cases (test qf curr)) [
    | inl more ↦
        let run = sym (read_slots-more test fuel qf from curr acc more) ∙ h in
        let (slot, e, g) = >>=-eq-done (get_slot qf curr) _ run in
        omega (arith, read_slots-le test fuel from (curr + 1) _ g)
    | inr stop ↦
        let last = sym (read_slots-stop test fuel qf from curr acc stop) ∙ h in ground arith
  ]

  -- A walk that stopped at once stops at once again.
  read_slots-none :
      (test : Qf → ℕ → Bool) (fuel from curr acc acc' : ℕ) {res : ℕ × ℕ}
      → ((i : ℕ) → test qf' i ≡ test qf i)
      → read_slots test fuel qf from curr acc ≡ done res
      → res.1 ≡ curr
      → (read_slots test fuel qf' from curr acc' ≡ done (acc', curr))
        × (test qf curr ≡ false)
        × (res.0 ≡ acc)
  unfolding read_slots
  read_slots-none test zero from curr acc acc' t h e = cc
  read_slots-none test (suc fuel) from curr acc acc' {res} t h at =
      elim (Bool-cases (test qf curr)) [
        | inl more ↦
            let run = sym (read_slots-more test fuel qf from curr acc more) ∙ h in
            let (slot, e, g) = >>=-eq-done (get_slot qf curr) _ run in
            absurd (omega (arith, read_slots-le test fuel from (curr + 1) _ g))
        | inr stop ↦
            let last = sym (read_slots-stop test fuel qf from curr acc stop) ∙ h in
            (read_slots-stop test fuel qf' from curr acc' (t curr ∙ stop), stop, ground arith)
      ]

  -- A walk over one slot is one again, and gives what the slot holds now.
  read_slots-one :
      (test : Qf → ℕ → Bool) (fuel from curr acc v : ℕ) {res : ℕ × ℕ}
      → ((i : ℕ) → test qf' i ≡ test qf i)
      → read_slots test fuel qf from curr acc ≡ done res
      → res.1 ≡ curr + 1
      → get_slot qf' curr ≡ done v
      → (read_slots test fuel qf' from curr acc
          ≡ done (bit_or acc (shl v ((curr - from) * qf.bits_per_slot % 64)), curr + 1))
        × (test qf curr ≡ true)
  unfolding read_slots
  read_slots-one test zero from curr acc v t h e s = cc
  read_slots-one test (suc fuel) from curr acc v {res} t h at s = elim (Bool-cases (test qf curr)) [
    | inl more ↦
        let run = sym (read_slots-more test fuel qf from curr acc more) ∙ h in
        let (slot, e, g) = >>=-eq-done (get_slot qf curr) _ run in
        let (stop, out, _) =
          read_slots-none test fuel from (curr + 1) _
            (bit_or acc (shl v ((curr - from) * qf.bits_per_slot % 64))) t g at in
        (
          read_slots-more test fuel qf' from curr acc (t curr ∙ more)
              ∙ ap
                  (λ m. m >>= λ slot.
                    read_slots test fuel qf' from (curr + 1)
                      (bit_or acc (shl slot ((curr - from) * qf.bits_per_slot % 64))))
                  s
              ∙ stop,
          more,
        )
    | inr stop ↦
        let last = sym (read_slots-stop test fuel qf from curr acc stop) ∙ h in
        absurd (grind (arith, at, last))
  ]

  -- The item itself, with one counter slot and no extension, has the count that its counter holds.
  pub get_slot_info-at :
      (v : ℕ) {info : SlotInfo}
      → get_slot_info qf index ≡ done info
      → info.ext_slots ≡ 0
      → info.count_slots ≡ 1
      → v < 2 ^ 64
      → get_slot qf' (index + 1) ≡ done v
      → (get_slot_info qf' index
          ≡ done (record { ext = 0; ext_slots = 0; count = v; count_slots = 1 }))
        × (info.ext ≡ 0)
  unfolding is_extension is_counter is_extension_or_counter
  get_slot_info-at v {info} h no_ext one small s =
      let (ext, curr, count, stop, e, g, x) = get_slot_info-parts qf index h in
      at_lem v info ext curr count stop e g x no_ext one small s
    where
      at_lem :
          (v : ℕ) (info : SlotInfo) (ext curr count stop : ℕ)
          → read_slots is_extension (rounds qf) qf (index + 1) (index + 1) 0 ≡ done (ext, curr)
          → read_slots is_counter (rounds qf) qf curr curr (if is_counter qf curr then 0 else 1)
            ≡ done (count, stop)
          → info ≡ record {
            ext = ext;
            ext_slots = curr - (index + 1);
            count = count;
            count_slots = stop - curr;
          }
          → info.ext_slots ≡ 0
          → info.count_slots ≡ 1
          → v < 2 ^ 64
          → get_slot qf' (index + 1) ≡ done v
          → (get_slot_info qf' index
              ≡ done (record { ext = 0; ext_slots = 0; count = v; count_slots = 1 }))
            × (info.ext ≡ 0)
      at_lem v info ext curr count stop e g x no_ext one small s =
          let le = read_slots-le is_extension (rounds qf) (index + 1) (index + 1) 0 e in
          let at : curr ≡ index + 1 =
            omega (arith, ap (λ (x : SlotInfo). x.ext_slots) x, no_ext, le) in
          let at₂ : stop ≡ curr + 1 = omega (arith, ap (λ (x : SlotInfo). x.count_slots) x, one) in
          let (none_ext, out, zero_ext) =
            read_slots-none is_extension (rounds qf) (index + 1) (index + 1) 0 0 (λ i. refl) e at in
          let g' = rw at at g in
          let at₂' : stop ≡ index + 1 + 1 = at₂ ∙ ap (λ (n : ℕ). n + 1) at in
          let start : ℕ = if is_counter qf (index + 1) then 0 else 1 in
          let (one_counter, counter) =
            read_slots-one is_counter (rounds qf) (index + 1) (index + 1) start v (λ i. refl) g'
              at₂' s in
          let value = counter_value qf (index + 1) v small counter in
          let whole =
            get_slot_info-of qf' index 0 (index + 1) v (index + 1 + 1) first none_ext
              (one_counter ∙ ap (λ (n : ℕ). done (n, index + 1 + 1)) value) in
          let z : index + 1 - (index + 1) ≡ 0 = omega arith in
          let o : index + 1 + 1 - (index + 1) ≡ 1 = omega arith in
          (whole ∙ rw (z, o) refl, ap (λ (x : SlotInfo). x.ext) x ∙ zero_ext)

  -- The walk of the count query comes to the item again, with the count that its counter holds now.
  pub count_index_loop-again :
      (fuel hash rank i v : ℕ) {info : SlotInfo} {c rk : ℕ}
      → get_slot_info qf index ≡ done info
      → info.ext_slots ≡ 0
      → info.count_slots ≡ 1
      → v < 2 ^ 64
      → get_slot qf' (index + 1) ≡ done v
      → count_index_loop fuel qf hash rank i ≡ done (some (c, index), rk)
      → count_index_loop fuel qf' hash rank i ≡ done (some (v, index), rk)
  unfolding count_index_loop is_runend
  count_index_loop-again zero hash rank i v inf no_ext one small s h = cc
  count_index_loop-again (suc fuel) hash rank i v {info = info} {c = c} {rk = rk} inf no_ext one
        small s h =
      let le = count_index_loop-le (suc fuel) qf hash rank i h in
      let (at, zero_ext) = get_slot_info-at v inf no_ext one small s in
      let ih = λ (rank : ℕ) (i : ℕ).
        count_index_loop-again fuel hash rank i v {info = info} {c = c} {rk = rk} inf no_ext one
          small s in
      let slot = same i (λ e. omega arith) in
      let skip = skip_extensions-with_contents qf r n l (rounds qf) (i + 1) in
      elim (ℕ_discrete i index) [
        | yes here ↦ grind arith
        | no before ↦ let info_before = get_slot_info-before i (omega arith) in grind (arith, ih)
      ]
