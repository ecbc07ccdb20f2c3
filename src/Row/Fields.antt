-- ===== src/Row/Fields.antt =====
-- Fields of a row that set_slot of src/gqf.c has written.
use ski_rental_adaptive_qf.Prelude.{
  ℕ, zero, suc, ◌+◌, ◌-◌, ◌/◌, ◌^◌, ◌≤◌, ◌<◌, ◌≡◌, refl, false, arith, ◌∙◌, inl, inr, ◌⊎◌,
}
use native.Mathlib.Nat.{pow-suc}
use ski_rental_adaptive_qf.Row.{Row, bit, field, set_field}

-- Rows that agree on a field read the same there.
pub field-congr :
    (r s : Row) (start n : ℕ)
    → ((i : ℕ) → start ≤ i → i < start + n → r i ≡ s i)
    → field r start n ≡ field s start n
unfolding field
field-congr r s start zero h = refl
field-congr r s start (suc n) h =
    let ih = field-congr r s (suc start) n (λ i p q. h i (omega arith) (omega arith)) in
    let e = h start (omega arith) (omega arith) in rw (e, ih)

pub field-lt : (r : Row) (start n : ℕ) → field r start n < 2 ^ n
unfolding field
field-lt r start zero = omega arith
field-lt r start (suc n) = ground (arith, field-lt r (suc start) n, pow-suc 2 n)

-- A field whose bits are those of v spells v.
field-of_bits :
    (r : Row) (start n v : ℕ)
    → v < 2 ^ n
    → ((j : ℕ) → j < n → r (start + j) ≡ bit v j)
    → field r start n ≡ v
unfolding field bit
field-of_bits r start zero v h b = omega arith
field-of_bits r start (suc n) v h b =
    let ih =
      field-of_bits r (suc start) n (v / 2) (omega (arith, pow-suc 2 n))
        (λ j lt. moved j ∙ b (suc j) (omega arith)) in
    let low = here ∙ b 0 (omega arith) in ground arith
  where
    moved : (j : ℕ) → r (suc start + j) ≡ r (start + suc j)
    moved j = let e : suc start + j ≡ start + suc j = omega arith in rw e

    here : r start ≡ r (start + 0)
    here = let e : start + 0 ≡ start = omega arith in rw e

-- Bits at or above the width of a number are clear.
pub bit-zero_of_lt : (n v j : ℕ) → v < 2 ^ n → n ≤ j → bit v j ≡ false
unfolding bit
bit-zero_of_lt zero v zero h k = ground arith
bit-zero_of_lt zero v (suc j) h k = bit-zero_of_lt zero (v / 2) j (omega arith) (omega arith)
bit-zero_of_lt (suc n) v zero h k = absurd (omega arith)
bit-zero_of_lt (suc n) v (suc j) h k =
    bit-zero_of_lt n (v / 2) j (omega (arith, pow-suc 2 n)) (omega arith)

-- What is written to a field is read back.
pub field-set_field_self :
    (r : Row) (start n stop v : ℕ) → v < 2 ^ n → field (set_field r start n stop v) start n ≡ v
unfolding set_field
field-set_field_self r start n stop v h =
    field-of_bits (set_field r start n stop v) start n v h (λ j lt. written j lt)
  where
    written : (j : ℕ) → j < n → set_field r start n stop v (start + j) ≡ bit v j
    written j lt = let e : start + j - start ≡ j = omega arith in ground arith

-- A field apart from the written one keeps its value, if the value written fits its field or is cut
-- off at the end of it.
pub field-set_field_ne :
    (r : Row) (start n stop v at n' : ℕ)
    → (v < 2 ^ n) ⊎ (stop ≤ start + n)
    → (start + n ≤ at) ⊎ (at + n' ≤ start)
    → field (set_field r start n stop v) at n' ≡ field r at n'
unfolding set_field
field-set_field_ne r start n stop v at n' h apart =
    field-congr (set_field r start n stop v) r at n' (λ i p q. kept i p q)
  where
    kept : (i : ℕ) → at ≤ i → i < at + n' → set_field r start n stop v i ≡ r i
    kept i p q = elim apart [
      | inl above ↦ elim h [
        | inl fits ↦ let clear = bit-zero_of_lt n v (i - start) fits (omega arith) in ground arith
        | inr cut ↦ ground arith
      ]
      | inr below ↦ ground arith
    ]
