-- ===== src/Variants/ReverseMaps/Packing.antt =====
-- The keys under which WiredTigerReverseMap stores (src/db/wiredtiger_reverse_map.hpp), and what it
-- finds under them.
use ski_rental_adaptive_qf.Prelude.{
  ℕ, ◌+◌, ◌-◌, ◌*◌, ◌^◌, ◌≤◌, ◌<◌, ◌≡◌, refl, sym, ap, ◌∙◌, inl, inr, true, ◌&&◌, Option, some,
  List, [], ◌∷◌, ◌++◌, arith, dec_lt, ◌==◌, if◌then◌else◌, ==_iff, Bool-cases,
}
use ski_rental_adaptive_qf.Hash.{low_bits}
use ski_rental_adaptive_qf.Variants.ReverseMaps.{
  Cursor, IsLawful, pack, WiredTiger, insert_all, wt_commit_fingerprints, wt_insert_fingerprint,
  wt_insert_and_commit_fingerprint, wt_get_fingerprint,
}
use ski_rental_adaptive_qf.Arith.{low_bits-lt, pow-add}
use mathlib.Core.List.{
  Mem, Perm, mem-cons, mem-cons_self, mem-cons_of_mem, mem-append_right, not-mem-nil,
}
use mathlib.Core.Logic.Or
use native.Mathlib.Nat.{ℕ_set}
use mathlib.Core.List.Perm

row_below : (x y q : ℕ) → x < y → x * q + q ≤ y * q
row_below x y q h = grind arith

packed_lt : (x p q r : ℕ) → x < p → r < q → x * q + r < p * q
packed_lt x p q r h k = omega (arith, row_below x p q h)

packed_injective : (x y q r s : ℕ) → r < q → s < q → x * q + r ≡ y * q + s → (x ≡ y) × (r ≡ s)
packed_injective x y q r s h k e = elim (dec_lt x y) [
  | yes lt ↦ absurd (omega (arith, row_below x y q lt))
  | no ge ↦ elim (dec_lt y x) [
    | yes gt ↦ absurd (omega (arith, row_below y x q gt))
    | no le ↦ let same : x ≡ y = omega arith in (same, omega (arith, ap (λ (t : ℕ). t * q) same))
  ]
]

-- The two ends of a word: the minirun in the upper bits, and a rank that fits below it.
pack_value :
    (bits fingerprint rank : ℕ)
    → bits ≤ 64
    → rank < 2 ^ (64 - bits)
    → pack bits fingerprint rank ≡ low_bits fingerprint bits * 2 ^ (64 - bits) + rank
unfolding pack
pack_value bits fingerprint rank le lt =
    let sum : bits + (64 - bits) ≡ 64 = omega arith in
    let whole : 2 ^ bits * 2 ^ (64 - bits) ≡ 2 ^ 64 =
      sym (pow-add bits (64 - bits)) ∙ ap (λ (n : ℕ). 2 ^ n) sum in
    let l =
      packed_lt (low_bits fingerprint bits) (2 ^ bits) (2 ^ (64 - bits)) rank
        (low_bits-lt fingerprint bits) lt in
    omega (arith, whole, l)

-- Keys of the reverse map's table agree only for one minirun and one rank, if the ranks fit into the
-- bits that the minirun leaves.
pub pack_injective :
    (bits f g r s : ℕ)
    → bits ≤ 64
    → r < 2 ^ (64 - bits)
    → s < 2 ^ (64 - bits)
    → pack bits f r ≡ pack bits g s
    → (low_bits f bits ≡ low_bits g bits) × (r ≡ s)
pack_injective bits f g r s le hr hs e =
    packed_injective (low_bits f bits) (low_bits g bits) (2 ^ (64 - bits)) r s hr hs
      (sym (pack_value bits f r le hr) ∙ e ∙ pack_value bits g s le hs)

pack_same : (bits f g r : ℕ) → low_bits f bits ≡ low_bits g bits → pack bits f r ≡ pack bits g r
unfolding pack
pack_same bits f g r e = rw e refl

-- What a key has after a list of pairs was inserted, from what it had before.
abbrev after_all : ℕ → List (ℕ × ℕ) → Option ℕ → Option ℕ
after_all k [] old = old
after_all k ((j, x) ∷ l) old = after_all k l (if k == j then some x else old)

-- All pairs of the list with one key have the value v.
abbrev pub IsOnly : ℕ → ℕ → List (ℕ × ℕ) → Type 0
IsOnly k v l = (x : ℕ) → Mem (k, x) l → x ≡ v

after_all-kept : (k v : ℕ) (l : List (ℕ × ℕ)) → IsOnly k v l → after_all k l (some v) ≡ some v
after_all-kept k v [] u = refl
after_all-kept k v ((j, x) ∷ l) u = elim (Bool-cases (k == j)) [
  | inl same ↦
      let e : k ≡ j = (==_iff k j).0 same in
      let value : x ≡ v = u x (rw e mem-cons_self) in
      rw (same, value) (after_all-kept k v l (λ y m. u y (mem-cons_of_mem _ m)))
  | inr other ↦ rw other (after_all-kept k v l (λ y m. u y (mem-cons_of_mem _ m)))
]

after_all-Mem :
    (k v : ℕ) (l : List (ℕ × ℕ)) (old : Option ℕ)
    → IsOnly k v l
    → Mem (k, v) l
    → after_all k l old ≡ some v
after_all-Mem k v [] old u m = absurd (not-mem-nil m)
after_all-Mem k v ((j, x) ∷ l) old u m =
    Or.elim (hlevel) (mem-cons.0 m)
      (λ e.
        let same : (k == j) ≡ true = (==_iff k j).1 (ap (λ (p : ℕ × ℕ). p.0) e) in
        let value : v ≡ x = ap (λ (p : ℕ × ℕ). p.1) e in
        rw (same, sym value) (after_all-kept k v l (λ y i. u y (mem-cons_of_mem _ i))))
      (λ i. after_all-Mem k v l _ (λ y n. u y (mem-cons_of_mem _ n)) i)

IsOnly-append : (k v : ℕ) (l : List (ℕ × ℕ)) → IsOnly k v l → IsOnly k v (l ++ (k, v) ∷ [])
IsOnly-append k v [] u x m =
    Or.elim (ℕ_set _ _) (mem-cons.0 m) (ap (λ (p : ℕ × ℕ). p.1)) (λ n. absurd (not-mem-nil n))
IsOnly-append k v (e ∷ l) u x m =
    Or.elim (ℕ_set _ _) (mem-cons.0 m) (λ same. u x (mem-cons.1 (Or.inl same)))
      (IsOnly-append k v l (λ y n. u y (mem-cons_of_mem _ n)) x)

module _ (C : Cursor) (law : IsLawful C) where
  -- A key that was stored and committed is found at its minirun and rank, and what was found at
  -- another minirun or rank is found as before, for ranks that fit.
  pub wt_get-insert :
      (w : WiredTiger C) (f g r s key : ℕ)
      → w.quotient_remainder_bits ≤ 64
      → r < 2 ^ (64 - w.quotient_remainder_bits)
      → s < 2 ^ (64 - w.quotient_remainder_bits)
      → wt_get_fingerprint C (wt_insert_and_commit_fingerprint C w f r key) g s ≡ (
          if (low_bits g w.quotient_remainder_bits == low_bits f w.quotient_remainder_bits)
            && (s == r)
          then some key
          else wt_get_fingerprint C w g s)
  unfolding wt_get_fingerprint wt_insert_and_commit_fingerprint
  wt_get-insert w f g r s key le hr hs =
      let bits : ℕ = w.quotient_remainder_bits in
      let l = law.search-insert w.table (pack bits f r) key (pack bits g s) in
      ground (arith, l, pack_injective bits f g r s le hr hs, pack_same bits f g r)

  search-insert_all :
      (t : C.Table) (k : ℕ) (l : List (ℕ × ℕ))
      → C.search (insert_all C t l) k ≡ after_all k l (C.search t k)
  unfolding insert_all
  search-insert_all t k [] = refl
  search-insert_all t k ((j, x) ∷ l) =
      search-insert_all (C.insert t j x) k l ∙ ap (after_all k l) (law.search-insert t j x k)

  -- A key that was given with its minirun and rank is found there after the commit, whatever the
  -- order in which the pairs are sorted, if no other key was given under the
  -- same number that pack makes of a minirun and a rank.
  pub wt_get-commit :
      (sort : List (ℕ × ℕ) → List (ℕ × ℕ)) (w : WiredTiger C) (f r key : ℕ)
      → ((l : List (ℕ × ℕ)) → Perm (sort l) l)
      → IsOnly (pack w.quotient_remainder_bits f r) key w.fingerprints
      → wt_get_fingerprint C (wt_commit_fingerprints C sort (wt_insert_fingerprint C w f r key)) f r
        ≡ some key
  unfolding wt_get_fingerprint wt_commit_fingerprints wt_insert_fingerprint
  wt_get-commit sort w f r key perm only =
      let k : ℕ = pack w.quotient_remainder_bits f r in
      let fs : List (ℕ × ℕ) = w.fingerprints ++ (k, key) ∷ [] in
      search-insert_all w.table k (sort fs)
      ∙ after_all-Mem k key (sort fs) (C.search w.table k)
          (λ x m. IsOnly-append k key w.fingerprints only x ((Perm.mem_iff (perm fs)).0 m))
          ((Perm.mem_iff (perm fs)).1 (mem-append_right w.fingerprints mem-cons_self))
