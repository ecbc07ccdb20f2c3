-- ===== src/Qf/Merge/Filters.antt =====
-- qf_merge and qf_merge_ret of src/gqf.c.
use ski_rental_adaptive_qf.Prelude.{
  ℕ, zero, suc, ◌+◌, ◌*◌, bit_or, Bool, true, false, ◌&&◌, ◌||◌, not, Option, none, some, List, [],
  ◌∷◌, ◌++◌, ltb, ◌==◌, if◌then◌else◌, Outcome, done, spin, ◌>>=◌, ◌>>◌, assert, ℤ, pos, negsuc,
}
use ski_rental_adaptive_qf.Qf.{HashMode, hash_default, hash_invertible, hash_none, Qf, rounds}
use ski_rental_adaptive_qf.Qf.Bits.{mark_runend, mark_occupied}
use ski_rental_adaptive_qf.Hash.{add64, shl}
use ski_rental_adaptive_qf.Qf.Iterate.{
  Qfi, qfi_end, qf_iterator_from_position, qfi_get_hash, qfi_next,
}
use ski_rental_adaptive_qf.Qf.Merge.{Finger, finger_cmp, merge_insert}

-- An iterator with the item that was read at it last, zeros at its end.
pub record Source : Type 0 where
  pub qfi : Qfi
  pub finger : Finger
  pub count : ℕ

unfoldable pub load : Qf → Qfi → Outcome Source
unfolding qfi_get_hash
load qf qfi = qfi_get_hash qf qfi >>= λ item. elim item [
  | none ↦ done (record { qfi = qfi; finger = record { rem = 0; ext = 0; ext_len = 0 }; count = 0 })
  | some (rem, info) ↦ done (record {
    qfi = qfi;
    finger = record { rem = rem; ext = info.ext; ext_len = info.ext_slots };
    count = info.count;
  })
]

-- `qfi_next(&qfi); qfi_get_hash(&qfi, ...);`
unfoldable pub advance : Qf → Source → Outcome Source
unfolding load qfi_next
advance qf s = qfi_next qf s.qfi >>= λ (more, qfi). load qf qfi

-- The filter written to, the run and the slot that it has come to, and the slot of the last item.
pub record Target : Type 0 where
  pub qf : Qf
  pub current_run : ℕ
  pub current_index : ℕ
  pub last_index : Option ℕ

unfoldable pub mark_last : Option ℕ → Qf → Qf
mark_last none qf = qf
mark_last (some last_index) qf = mark_runend qf last_index

unfoldable pub open_run : Target → ℕ → Target
unfolding mark_last
open_run t run = record {
  qf = mark_last t.last_index (mark_occupied t.qf run);
  current_run = run;
  current_index = if ltb t.current_index run then run else t.current_index;
  last_index = t.last_index;
}

unfoldable pub place : Target → ℕ → Finger → ℕ → Outcome Target
unfolding merge_insert
place t run finger count =
    merge_insert t.qf t.current_index run finger count >>= λ (current_index, qf). done (record {
      qf = qf;
      current_run = t.current_run;
      current_index = current_index;
      last_index = some t.current_index;
    })

-- The rest of a run that only one of the filters has more items for. Each round that does not abort
-- moves the target's slot on below xnslots.
unfoldable pub drain_run : ℕ → Qf → Source → Target → Outcome (Source × Target)
unfolding place advance
drain_run zero qf s t = spin
drain_run (suc fuel) qf s t = place t s.qfi.run s.finger s.count >>= λ t'. advance qf s >>= λ s'.
    elim (s'.qfi.run == t.current_run) [ true ↦ drain_run fuel qf s' t' | false ↦ done (s', t') ]

-- The last loops of qf_merge_ret, for the filter that is not at its end.
unfoldable pub drain_rest : ℕ → Qf → Qfi → Target → Outcome Target
unfolding place load open_run qfi_next
drain_rest zero qf qfi t = spin
drain_rest (suc fuel) qf qfi t = load qf qfi >>= λ s.
    place (if qfi.run == t.current_run then t else open_run t qfi.run) qfi.run s.finger s.count
    >>= λ t'. qfi_next qf qfi >>= λ (more, qfi'). elim more [
      | true ↦ drain_rest fuel qf qfi' t'
      | false ↦ done t'
    ]

-- The fingerprints that collided, and their lengths.
abbrev pub Collisions : Type 0
Collisions = List (ℕ × ℕ)

abbrev pub amount : Collisions → ℕ
amount [] = 0
amount (c ∷ cs) = suc (amount cs)

-- `collect` is false where coll_hash is NULL. The arrays hold 256 entries; the 256th asks for new
-- ones, of too few bytes and the second over the first, so that all from there on is undefined.
unfoldable pub note_collision : Bool → Qf → ℕ → Finger → Collisions → Outcome Collisions
note_collision collect qfa run finger collisions =
    if not collect
    then done collisions
    else assert (not (amount collisions == 255))
      >> done (
          collisions
          ++ (
            bit_or (bit_or finger.rem (shl run qfa.bits_per_slot))
                (shl finger.ext (qfa.quotient_bits + qfa.bits_per_slot)),
            finger.ext_len * qfa.bits_per_slot + qfa.quotient_bits + qfa.bits_per_slot,
          )
            ∷ [])

pub record Merging : Type 0 where
  pub a : Source
  pub b : Source
  pub target : Target
  pub collisions : Collisions

-- Both filters have more items for the run: the one with the lower fingerprint goes first, and equal
-- fingerprints become one item.
unfoldable pub merge_ordered : Bool → Qf → Qf → Merging → ℤ → Outcome Merging
unfolding place advance note_collision
merge_ordered collect qfa qfb m (pos zero) = do
  t ← place m.target m.target.current_run m.a.finger (add64 m.a.count m.b.count)
  collisions ← note_collision collect qfa m.target.current_run m.a.finger m.collisions
  a ← advance qfa m.a
  b ← advance qfb m.b
  done (record { a = a; b = b; target = t; collisions = collisions })
merge_ordered collect qfa qfb m (negsuc _) = do
  t ← place m.target m.target.current_run m.a.finger m.a.count
  a ← advance qfa m.a
  done (record m { a = a; target = t })
merge_ordered collect qfa qfb m (pos (suc _)) = do
  t ← place m.target m.target.current_run m.b.finger m.b.count
  b ← advance qfb m.b
  done (record m { b = b; target = t })

unfoldable pub merge_both : Bool → Qf → Qf → Merging → Outcome Merging
unfolding finger_cmp merge_ordered
merge_both collect qfa qfb m =
    finger_cmp m.target.qf.bits_per_slot m.a.finger m.b.finger >>= merge_ordered collect qfa qfb m

-- The body of the main loop.
unfoldable pub merge_round : Bool → Qf → Qf → Merging → Outcome Merging
unfolding merge_both drain_run open_run
merge_round collect qfa qfb m =
    let fuel : ℕ = rounds m.target.qf in
    let run : ℕ = m.target.current_run in
    if m.a.qfi.run == run
    then if m.b.qfi.run == run
      then merge_both collect qfa qfb m
      else drain_run fuel qfa m.a m.target >>= (λ (a, t). done (record m { a = a; target = t }))
    else if m.b.qfi.run == run
    then drain_run fuel qfb m.b m.target >>= (λ (b, t). done (record m { b = b; target = t }))
    else done (record m {
      target = open_run m.target (if ltb m.a.qfi.run m.b.qfi.run then m.a.qfi.run else m.b.qfi.run);
    })

-- The main loop. A round that places nothing opens the run of an item, which the next one places, so
-- that two rounds move the target's slot on.
unfoldable pub merge_loop : ℕ → Bool → Qf → Qf → Merging → Outcome Merging
unfolding merge_round qfi_end
merge_loop zero collect qfa qfb m = spin
merge_loop (suc fuel) collect qfa qfb m = merge_round collect qfa qfb m >>= λ m'.
    elim (not (qfi_end qfa m'.a.qfi) && not (qfi_end qfb m'.b.qfi)) [
      | true ↦ merge_loop fuel collect qfa qfb m'
      | false ↦ done m'
    ]

unfoldable pub drain_unless_end : Qf → Qfi → Target → Outcome Target
unfolding drain_rest qfi_end
drain_unless_end qf qfi t = if qfi_end qf qfi then done t else drain_rest (rounds t.qf) qf qfi t

abbrev pub same_mode : HashMode → HashMode → Bool
same_mode hash_default hash_default = true
same_mode hash_invertible hash_invertible = true
same_mode hash_none hash_none = true
same_mode m n = false

-- The asserts and the test of the hash functions, where the source exits.
unfoldable pub can_merge : Qf → Qf → Qf → Bool
can_merge qfa qfb qfc =
    (qfc.noccupied_slots == 0)
    && ltb (add64 qfa.noccupied_slots qfb.noccupied_slots) qfc.xnslots
    && (qfa.bits_per_slot == qfb.bits_per_slot)
    && (qfb.bits_per_slot == qfc.bits_per_slot)
    && not (
        not (same_mode qfa.hash_mode qfc.hash_mode)
        && not (qfa.seed == qfc.seed)
        && not (same_mode qfb.hash_mode qfc.hash_mode)
        && not (qfb.seed == qfc.seed))

abbrev pub blank : Qfi
blank = record { run = 0; current = 0 }

unfoldable pub qf_merge_ret : Bool → Qf → Qf → Qf → Outcome (Collisions × Qf)
unfolding can_merge merge_loop drain_unless_end mark_last qf_iterator_from_position load
qf_merge_ret collect qfa qfb qfc = do
  assert (can_merge qfa qfb qfc)
  (_, qfia) ← qf_iterator_from_position qfa blank 0
  (_, qfib) ← qf_iterator_from_position qfb blank 0
  a ← load qfa qfia
  b ← load qfb qfib
  let qf : Qf = if (qfia.run == 0) || (qfib.run == 0) then mark_occupied qfc 0 else qfc
  m ← merge_loop (2 * rounds qfc) collect qfa qfb (record {
    a = a;
    b = b;
    target = record { qf = qf; current_run = 0; current_index = 0; last_index = none };
    collisions = [];
  })
  t ← drain_unless_end qfa m.a.qfi m.target
  t' ← drain_unless_end qfb m.b.qfi t
  done (m.collisions, mark_last t'.last_index t'.qf)

unfoldable pub qf_merge : Qf → Qf → Qf → Outcome Qf
unfolding qf_merge_ret
qf_merge qfa qfb qfc = qf_merge_ret false qfa qfb qfc >>= λ (_, qf). done qf
