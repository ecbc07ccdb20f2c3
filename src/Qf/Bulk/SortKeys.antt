-- ===== src/Qf/Bulk/SortKeys.antt =====
-- The numbers that bulk_insert_sort_hashes of src/gqf.c puts in place of hashes.
use ski_rental_adaptive_qf.Prelude.{
  ltb, lt→ltb, assert-true, ◌%◌, ℕ, zero, suc, ◌+◌, ◌-◌, ◌*◌, ◌/◌, ◌%◌, ◌^◌, ◌≤◌, ◌<◌, bit_or, ◌≡◌,
  ap, ◌∙◌, ◌⊎◌, inl, inr, true, arith, ltb, ltb→lt, Bool-cases, done, ◌>>=◌,
}
use ski_rental_adaptive_qf.Qf.{Qf}
use ski_rental_adaptive_qf.Hash.{shl, shr, low_bits}
use ski_rental_adaptive_qf.Arith.{
  below_pow, times_pow-lt, pow_pos, pow-add, low_bits-lt, bit_or_disjoint, bit_or_comm,
}
use ski_rental_adaptive_qf.Qf.Bulk.{rem_of, run_of, ext_of, reverse_bits, ext_bits, sort_hash}
use native.Mathlib.Nat.{
  mod-eq_of_lt, pow-suc, mod-eq_of_lt, mul_comm, mul_assoc, mul-le-mul_right, add-mul,
  pow-le-pow_right, div-lt_iff_lt-mul,
}

-- One more bit at the low end.
append_bit : (e t n : ℕ) → e < 2 ^ n → n < 64 → bit_or (shl e 1) (low_bits t 1) < 2 ^ suc n
append_bit e t n fits lt =
    let pow : 2 ^ suc n ≤ 2 ^ 64 =
      pow-le-pow_right {n = 2} (omega arith) {i = suc n} {j = 64} (omega arith) in
    let whole : shl e 1 ≡ e * 2 ^ 1 = mod-eq_of_lt (omega (arith, pow-suc 2 n)) in
    let low : t % 2 < 2 ^ 1 = omega arith in
    omega (
      arith,
      ap (λ (x : ℕ). bit_or x (low_bits t 1)) whole,
      bit_or_comm (e * 2 ^ 1) (t % 2),
      bit_or_disjoint 1 (t % 2) e low,
      pow-suc 2 n,
    )

some_bits : (t b : ℕ) → ltb 0 t ≡ true → t < 2 ^ b → b ≡ suc (b - 1)
some_bits t zero m lt = absurd (omega (arith, ltb→lt 0 t m))
some_bits t (suc b) m lt = omega arith

-- The bits of t, reversed, behind those of e, if t has at most b.
reverse_bits-lt :
    (fuel b t e n : ℕ)
    → b < fuel
    → t < 2 ^ b
    → e < 2 ^ n
    → n + b ≤ 64
    → (r : ℕ) × (m : ℕ) × (reverse_bits fuel t e n ≡ done (r, m)) × (r < 2 ^ m) × (m ≤ n + b)
unfolding reverse_bits
reverse_bits-lt zero b t e n room lt fits le = absurd (omega arith)
reverse_bits-lt (suc fuel) b t e n room lt fits le = elim (Bool-cases (ltb 0 t)) [
  | inr f ↦ (e, n, ground arith, fits, omega arith)
  | inl m ↦
      let c : b ≡ suc (b - 1) = some_bits t b m lt in
      let half : t / 2 < 2 ^ (b - 1) = omega (arith, ap (λ (x : ℕ). 2 ^ x) c, pow-suc 2 (b - 1)) in
      let rest =
        reverse_bits-lt fuel (b - 1) (t / 2) (bit_or (shl e 1) (low_bits t 1)) (suc n) (omega arith)
          half (append_bit e t n fits (omega arith)) (omega arith) in
      let n_lem : n + 1 ≡ suc n = omega arith in
      (
        rest.0,
        rest.1,
        step m
            ∙ ap (λ (x : ℕ). reverse_bits fuel (t / 2) (bit_or (shl e 1) (low_bits t 1)) x) n_lem
            ∙ rest.2,
        rest.3,
        omega (arith, rest.4),
      )
]
  where
    step :
        ltb 0 t ≡ true
        → reverse_bits (suc fuel) t e n
          ≡ reverse_bits fuel (t / 2) (bit_or (shl e 1) (low_bits t 1)) (n + 1)
    step m = ground arith

-- A shift that stays within the word.
shl_whole : (v a s : ℕ) → v < 2 ^ a → a + s ≤ 64 → shl v s ≡ v * 2 ^ s
shl_whole v a s lt le = mod-eq_of_lt (omega (arith, times_pow-lt v a s lt, below_pow (a + s) 64 le))

aligned-lt : (x m e : ℕ) → x < 2 ^ m → m ≤ e → e ≤ 64 → shl x (e - m) < 2 ^ e
aligned-lt x m e lt le word = omega (
  arith,
  shl_whole x m (e - m) lt (omega arith),
  times_pow-lt x m (e - m) lt,
  ap (λ (t : ℕ). 2 ^ t) {x = m + (e - m)} {y = e} (omega arith),
)

-- Three fields, each of them above the last one.
joined :
    (r rem run b q e : ℕ)
    → r < 2 ^ e
    → rem < 2 ^ b
    → run < 2 ^ q
    → e + b + q ≤ 64
    → bit_or (bit_or r (shl rem e)) (shl run (e + b)) ≡ r + (rem + run * 2 ^ b) * 2 ^ e
joined r rem run b q e r_lt rem_lt run_lt word =
    let high : shl rem e ≡ rem * 2 ^ e = shl_whole rem b e rem_lt (omega arith) in
    let top : shl run (e + b) ≡ run * 2 ^ (e + b) = shl_whole run q (e + b) run_lt (omega arith) in
    let low : r + rem * 2 ^ e < 2 ^ (e + b) = omega (
      arith,
      times_pow-lt rem b e rem_lt,
      pow-add e b,
      mul_comm (2 ^ e) (2 ^ b),
      add-mul (rem + 1) (2 ^ b - (rem + 1)) (2 ^ e),
      add-mul rem 1 (2 ^ e),
      ap (λ (t : ℕ). t * 2 ^ e) {x = rem + 1 + (2 ^ b - (rem + 1))} {y = 2 ^ b} (omega arith),
    ) in
    ap (λ (t : ℕ). bit_or (bit_or r t) (shl run (e + b))) high
    ∙ ap (λ (t : ℕ). bit_or t (shl run (e + b))) (bit_or_disjoint e r rem r_lt)
    ∙ ap (λ (t : ℕ). bit_or (r + rem * 2 ^ e) t) top
    ∙ bit_or_disjoint (e + b) (r + rem * 2 ^ e) run low
    ∙ omega (
      arith,
      add-mul rem (run * 2 ^ b) (2 ^ e),
      mul_assoc run (2 ^ b) (2 ^ e),
      ap (λ (t : ℕ). run * t) (pow-add e b ∙ mul_comm (2 ^ e) (2 ^ b)),
    )

module _ (qf : Qf) (fit : qf.quotient_bits + qf.bits_per_slot < 64) where
  -- The run and the remainder stand above the reversed extension.
  sort_hash-parts :
      (key : ℕ)
      → key < 2 ^ 64
      → (s : ℕ) × (r : ℕ) × (sort_hash qf key ≡ done s)
        × (r < 2 ^ ext_bits qf)
        × (s ≡ r + (rem_of qf key + run_of qf key * 2 ^ qf.bits_per_slot) * 2 ^ ext_bits qf)
  unfolding sort_hash
  sort_hash-parts key lt =
      let b : ℕ = qf.bits_per_slot in
      let q : ℕ = qf.quotient_bits in
      let e : ℕ = ext_bits qf in
      let amount : (q + b) % 64 ≡ q + b = mod-eq_of_lt fit in
      let ext_lt : ext_of qf key < 2 ^ e = rw amount (
        (div-lt_iff_lt-mul (pow_pos (q + b))).1 (
          omega (
            arith,
            pow-add e (q + b),
            ap (λ (t : ℕ). 2 ^ t) {x = e + (q + b)} {y = 64} (omega arith),
          ))) in
      let rev =
        reverse_bits-lt 65 e (ext_of qf key) 0 0 (omega arith) ext_lt (omega arith) (omega arith) in
      let r : ℕ = shl rev.0 (e - rev.1) in
      let r_lt : r < 2 ^ e = aligned-lt rev.0 rev.1 e rev.3 (omega (arith, rev.4)) (omega arith) in
      (
        bit_or (bit_or r (shl (rem_of qf key) e)) (shl (run_of qf key) (e + b)),
        r,
        assert-true (ltb (q + b) 64) (lt→ltb (q + b) 64 fit) (
            ap
              (λ o. o >>= (λ (x, n). done (
                bit_or (bit_or (shl x (e - n)) (shl (rem_of qf key) e))
                  (shl (run_of qf key) (e + b)))))
              rev.2),
        r_lt,
        joined r (rem_of qf key) (run_of qf key) b q e r_lt (low_bits-lt key b)
            (low_bits-lt (shr key b) q) (omega arith),
      )

  place_lt :
      (a b : ℕ)
      → (run_of qf a < run_of qf b) ⊎ ((run_of qf a ≡ run_of qf b) × (rem_of qf a < rem_of qf b))
      → rem_of qf a + run_of qf a * 2 ^ qf.bits_per_slot
        < rem_of qf b + run_of qf b * 2 ^ qf.bits_per_slot
  place_lt a b (inl lt) = omega (
    arith,
    low_bits-lt a qf.bits_per_slot,
    mul-le-mul_right (2 ^ qf.bits_per_slot) lt,
    add-mul (run_of qf a) 1 (2 ^ qf.bits_per_slot),
  )
  place_lt a b (inr (e, lt)) = omega (arith, ap (λ (t : ℕ). t * 2 ^ qf.bits_per_slot) e)

  -- The numbers that bulk_insert_sort_hashes puts in place of two 64-bit hashes stand in the order of
  -- their runs, and within a run in that of their remainders, if a bucket and a remainder together
  -- have less than 64 bits.
  pub sort_hash-lt :
      (a b : ℕ)
      → a < 2 ^ 64
      → b < 2 ^ 64
      → (run_of qf a < run_of qf b) ⊎ ((run_of qf a ≡ run_of qf b) × (rem_of qf a < rem_of qf b))
      → (s : ℕ) × (t : ℕ) × (sort_hash qf a ≡ done s) × (sort_hash qf b ≡ done t) × (s < t)
  sort_hash-lt a b p q first =
      let x = sort_hash-parts a p in
      let y = sort_hash-parts b q in
      (
        x.0,
        y.0,
        x.2,
        y.2,
        below x.0 y.0 x.1 y.1 (2 ^ ext_bits qf) _ _ x.3 x.4 y.4 (place_lt a b first),
      )
    where
      below : (s t r u p m n : ℕ) → r < p → s ≡ r + m * p → t ≡ u + n * p → m < n → s < t
      below s t r u p m n lt e f less = omega (arith, mul-le-mul_right p less, add-mul m 1 p)
