-- ===== src/Variants/ReverseMaps.antt =====
-- The reverse map of the filters of src/variants, the template parameter ReverseMap, and two of the
-- classes that fill it: MockDB (src/db/mock_db.hpp) and WiredTigerReverseMap
-- (src/db/wiredtiger_reverse_map.hpp).
pub mod Packing
use ski_rental_adaptive_qf.Prelude.{
  ℕ, zero, suc, ◌+◌, ◌-◌, ◌*◌, ◌/◌, ◌%◌, ◌^◌, ◌≤◌, ◌<◌, min, bit_and, bit_or, bit_xor, ◌≡◌, refl,
  sym, ap, ◌∙◌, fun_ext, ◌≢◌, ◌↔◌, ◌⊎◌, inl, inr, Bool, true, false, ◌&&◌, ◌||◌, not, Option, none,
  some, List, [], ◌∷◌, ◌++◌, map, arith, dec_lt, ℕ_discrete, update, ltb, leb, ◌==◌, if◌then◌else◌,
  ltb→lt, lt→ltb, leb→le, ==_iff, Bool-cases, Outcome, done, abort, spin, ◌>>=◌, ◌>>◌, assert,
  >>=-eq-done, all-bind, all-done, all-if, all-assert, ℤ, pos, negsuc, sub_ℕ,
}
use ski_rental_adaptive_qf.Hash.{add64, sub64, mul64, not64, shl, shr, low_bits}

-- The operations that BaseAdaptiveFilter and its variants call. Those that insert return none for a
-- negative result, and get_fingerprint for one that is not 0.
pub record ReverseMap : Type 1 where
  pub State : Type 0
  pub insert_fingerprint : State → ℕ → ℕ → ℕ → Option State
  pub insert_and_commit_fingerprint : State → ℕ → ℕ → ℕ → Option State
  pub commit_fingerprints : State → State
  pub get_fingerprint : State → ℕ → ℕ → Option ℕ

-- MockDB: it keeps nothing but the number of bits, and makes a key up by ones above the fingerprint.
abbrev pub mock_get_fingerprint : ℕ → ℕ → ℕ → Option ℕ
mock_get_fingerprint quotient_remainder_bits fingerprint rank =
    some (bit_or fingerprint (shl (2 ^ 64 - 1) quotient_remainder_bits))

abbrev pub mock_db : ReverseMap
mock_db = record {
  State = ℕ;
  insert_fingerprint = λ bits fingerprint rank key. some bits;
  insert_and_commit_fingerprint = λ bits fingerprint rank key. some bits;
  commit_fingerprints = λ bits. bits;
  get_fingerprint = mock_get_fingerprint;
}

-- The table that a WiredTiger cursor is on: `insert` after set_key and set_value, and `search`.
pub record Cursor : Type 1 where
  pub Table : Type 0
  pub insert : Table → ℕ → ℕ → Table
  pub search : Table → ℕ → Option ℕ

-- As WiredTiger documents it: a key that was inserted is found with its last value, as the cursor
-- overwrites, and other keys are found as before.
pub record IsLawful (C : Cursor) : Type 0 where
  pub search-insert :
      (t : C.Table) (k v j : ℕ)
      → C.search (C.insert t k v) j ≡ (if j == k then some v else C.search t j)

-- `((fingerprint & minirunBitmask) << (64 - quotient_remainder_bits)) + rank`
unfoldable pub pack : ℕ → ℕ → ℕ → ℕ
pack quotient_remainder_bits fingerprint rank =
    add64 (shl (low_bits fingerprint quotient_remainder_bits) (64 - quotient_remainder_bits)) rank

module _ (C : Cursor) where
  -- `WiredTigerReverseMap`: the bits, the table, and the pairs that wait for the commit.
  pub record WiredTiger : Type 0 where
    pub quotient_remainder_bits : ℕ
    pub table : C.Table
    pub fingerprints : List (ℕ × ℕ)

  -- The loop of commitFingerprints over the sorted pairs.
  unfoldable pub insert_all : C.Table → List (ℕ × ℕ) → C.Table
  insert_all t [] = t
  insert_all t ((key, value) ∷ rest) = insert_all (C.insert t key value) rest

  -- std::sort is an argument.
  unfoldable pub wt_commit_fingerprints : (List (ℕ × ℕ) → List (ℕ × ℕ)) → WiredTiger → WiredTiger
  unfolding insert_all
  wt_commit_fingerprints sort w = record w { table = insert_all w.table (sort w.fingerprints) }

  unfoldable pub wt_insert_fingerprint : WiredTiger → ℕ → ℕ → ℕ → WiredTiger
  unfolding pack
  wt_insert_fingerprint w fingerprint rank key = record w {
    fingerprints = w.fingerprints ++ (pack w.quotient_remainder_bits fingerprint rank, key) ∷ [];
  }

  unfoldable pub wt_insert_and_commit_fingerprint : WiredTiger → ℕ → ℕ → ℕ → WiredTiger
  unfolding pack
  wt_insert_and_commit_fingerprint w fingerprint rank key = record w {
    table = C.insert w.table (pack w.quotient_remainder_bits fingerprint rank) key;
  }

  unfoldable pub wt_get_fingerprint : WiredTiger → ℕ → ℕ → Option ℕ
  unfolding pack
  wt_get_fingerprint w fingerprint rank =
      C.search w.table (pack w.quotient_remainder_bits fingerprint rank)

  abbrev pub wired_tiger : (List (ℕ × ℕ) → List (ℕ × ℕ)) → ReverseMap
  wired_tiger sort = record {
    State = WiredTiger;
    insert_fingerprint =
        λ w fingerprint rank key. some (wt_insert_fingerprint w fingerprint rank key);
    insert_and_commit_fingerprint =
        λ w fingerprint rank key. some (wt_insert_and_commit_fingerprint w fingerprint rank key);
    commit_fingerprints = wt_commit_fingerprints sort;
    get_fingerprint = wt_get_fingerprint;
  }
