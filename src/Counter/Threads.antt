-- ===== src/Counter/Threads.antt =====
-- The counters under threads: each atomic access of pc_add and pc_sync (src/partitioned_counter.c) is
-- a step, and the steps of the calls that run at one time come in any order.
use ski_rental_adaptive_qf.Prelude.{
  ℕ, suc, ◌+◌, ◌^◌, ◌≤◌, ◌<◌, ◌≡◌, refl, sym, ap, ◌∙◌, Bool, true, false, ◌&&◌, ◌||◌, List, [], ◌∷◌,
  ◌++◌, arith, ltb, ◌==◌, if◌then◌else◌,
}
use ski_rental_adaptive_qf.Hash.{add64}
use ski_rental_adaptive_qf.Counter.{
  Pc, add_fetch_local, exchange_local, fetch_add_global, past_threshold,
}
use ski_rental_adaptive_qf.Counter.Total.{
  total, IsWithin, IsBalanced, add_fetch_local-total, exchange_local-total, fetch_add_global-total,
  past_threshold-IsWithin,
}

-- Where a call stands between two of its atomic accesses: pc_add before its exchange of a local
-- counter and before its addition to the global one, and pc_sync before its exchange of a local
-- counter and, with the next counter, before its addition.
pub data Place : Type 0 where
  flush : ℕ → Place
  hold : ℕ → Place
  syncing : ℕ → Place
  sync_hold : ℕ → ℕ → Place

-- The counters, the calls under way, and the sum of all counts that calls brought so far.
pub record Shared : Type 0 where
  pub pc : Pc
  pub calls : List Place
  pub brought : ℕ

-- The first access of pc_add(pc, count) on counter i.
unfoldable pub after_add : Shared → ℕ → ℕ → Shared
unfolding add_fetch_local past_threshold
after_add s i count = record {
  pc = (add_fetch_local s.pc i count).1;
  calls =
      if past_threshold s.pc (add_fetch_local s.pc i count).0 then flush i ∷ s.calls else s.calls;
  brought = add64 s.brought count;
}

-- One access, of a new call or of one of those under way.
pub data Step (s : Shared) (u : Shared) : Type 0 where
  add : (i count : ℕ) → i < s.pc.num_counters → u ≡ after_add s i count → Step s u
  add_exchange :
      (i : ℕ) (xs ys : List Place)
      → s.calls ≡ xs ++ flush i ∷ ys
      → u ≡ record s {
        pc = (exchange_local s.pc i).1;
        calls = xs ++ hold (exchange_local s.pc i).0 ∷ ys;
      }
      → Step s u
  add_global :
      (c : ℕ) (xs ys : List Place)
      → s.calls ≡ xs ++ hold c ∷ ys
      → u ≡ record s { pc = fetch_add_global s.pc c; calls = xs ++ ys }
      → Step s u
  sync : u ≡ record s { calls = syncing 0 ∷ s.calls } → Step s u
  sync_exchange :
      (i : ℕ) (xs ys : List Place)
      → i < s.pc.num_counters
      → s.calls ≡ xs ++ syncing i ∷ ys
      → u ≡ record s {
        pc = (exchange_local s.pc i).1;
        calls = xs ++ sync_hold (exchange_local s.pc i).0 (suc i) ∷ ys;
      }
      → Step s u
  sync_global :
      (c i : ℕ) (xs ys : List Place)
      → s.calls ≡ xs ++ sync_hold c i ∷ ys
      → u ≡ record s { pc = fetch_add_global s.pc c; calls = xs ++ syncing i ∷ ys }
      → Step s u
  sync_end :
      (i : ℕ) (xs ys : List Place)
      → s.pc.num_counters ≤ i
      → s.calls ≡ xs ++ syncing i ∷ ys
      → u ≡ record s { calls = xs ++ ys }
      → Step s u

pub data Reach (s : Shared) : Shared → Type 0 where
  here : Reach s s
  next : {t u : Shared} → Reach s t → Step t u → Reach s u

-- What a call holds that has left a local counter and is not yet in the global one.
abbrev pub weight : Place → ℕ
weight (flush i) = 0
weight (hold c) = c
weight (syncing i) = 0
weight (sync_hold c i) = c

abbrev pub held : List Place → ℕ
held [] = 0
held (p ∷ ps) = weight p + held ps

-- A call is about to empty counter i.
abbrev flushes : ℕ → Place → Bool
flushes i (flush j) = j == i
flushes i (hold c) = false
flushes i (syncing j) = false
flushes i (sync_hold c j) = false

abbrev any_flushes : ℕ → List Place → Bool
any_flushes i [] = false
any_flushes i (p ∷ ps) = flushes i p || any_flushes i ps

abbrev in_range : ℕ → Place → Bool
in_range n (flush j) = ltb j n
in_range n (hold c) = true
in_range n (syncing j) = true
in_range n (sync_hold c j) = true

abbrev all_in_range : ℕ → List Place → Bool
all_in_range n [] = true
all_in_range n (p ∷ ps) = in_range n p && all_in_range n ps

held-middle : (p : Place) (xs ys : List Place) → held (xs ++ p ∷ ys) ≡ weight p + held (xs ++ ys)
held-middle p [] ys = refl
held-middle p (x ∷ xs) ys = omega (arith, held-middle p xs ys)

any_flushes-middle :
    (i : ℕ) (p : Place) (xs ys : List Place)
    → any_flushes i (xs ++ p ∷ ys) ≡ (flushes i p || any_flushes i (xs ++ ys))
any_flushes-middle i p [] ys = refl
any_flushes-middle i p (x ∷ xs) ys = ground (arith, any_flushes-middle i p xs ys)

all_in_range-middle :
    (n : ℕ) (p : Place) (xs ys : List Place)
    → all_in_range n (xs ++ p ∷ ys) ≡ (in_range n p && all_in_range n (xs ++ ys))
all_in_range-middle n p [] ys = refl
all_in_range-middle n p (x ∷ xs) ys = ground (arith, all_in_range-middle n p xs ys)

-- No count is lost or counted twice, and a local counter past the threshold is about to be emptied.
pub record IsConserved (s : Shared) : Type 0 where
  pub counted : add64 (total s.pc) (held s.calls) ≡ s.brought
  pub placed : all_in_range s.pc.num_counters s.calls ≡ true
  pub small : s.pc.threshold < 2 ^ 31
  pub covered :
      (i : ℕ) → any_flushes i s.calls ≡ false → IsWithin s.pc.threshold (s.pc.local_counters i)

after_add-IsConserved :
    (s : Shared) (i count : ℕ)
    → i < s.pc.num_counters
    → IsConserved s
    → IsConserved (after_add s i count)
unfolding after_add
after_add-IsConserved s i count lt c =
    let cur : ℕ = add64 (s.pc.local_counters i) count in
    let within = past_threshold-IsWithin s.pc cur c.small in
    record {
      counted = grind (arith, c.counted, add_fetch_local-total s.pc i count lt);
      placed = ground (arith, c.placed);
      small = c.small;
      covered = λ j f. grind (arith, c.covered j, within);
    }

-- One call leaves its place for another, or ends.
exchange-IsConserved :
    (pc : Pc) (b i : ℕ) (p q : Place) (xs ys : List Place)
    → i < pc.num_counters
    → weight p ≡ 0
    → weight q ≡ (exchange_local pc i).0
    → in_range pc.num_counters q ≡ true
    → ((j : ℕ) → flushes j p ≡ true → j ≡ i)
    → IsConserved (record { pc = pc; calls = xs ++ p ∷ ys; brought = b })
    → IsConserved (record { pc = (exchange_local pc i).1; calls = xs ++ q ∷ ys; brought = b })
unfolding exchange_local
exchange-IsConserved pc b i p q xs ys lt wp wq rq fl c = record {
  counted = omega (
    arith,
    c.counted,
    held-middle p xs ys,
    held-middle q xs ys,
    exchange_local-total pc i lt,
    wp,
    wq,
  );
  placed = ground (
    arith,
    c.placed,
    all_in_range-middle pc.num_counters p xs ys,
    all_in_range-middle pc.num_counters q xs ys,
  );
  small = c.small;
  covered = λ j f.
      grind (arith, c.covered j, any_flushes-middle j p xs ys, any_flushes-middle j q xs ys, fl j);
}

global-IsConserved :
    (pc : Pc) (b k : ℕ) (p : Place) (xs ys zs : List Place)
    → weight p ≡ k
    → ((j : ℕ) → flushes j p ≡ false)
    → held zs ≡ held (xs ++ ys)
    → (all_in_range pc.num_counters (xs ++ ys) ≡ true → all_in_range pc.num_counters zs ≡ true)
    → ((j : ℕ) → any_flushes j zs ≡ any_flushes j (xs ++ ys))
    → IsConserved (record { pc = pc; calls = xs ++ p ∷ ys; brought = b })
    → IsConserved (record { pc = fetch_add_global pc k; calls = zs; brought = b })
unfolding fetch_add_global
global-IsConserved pc b k p xs ys zs w nf h r f c = record {
  counted = omega (arith, c.counted, held-middle p xs ys, fetch_add_global-total pc k, w, h);
  placed = ground (arith, c.placed, all_in_range-middle pc.num_counters p xs ys, r);
  small = c.small;
  covered = λ j fz. ground (arith, c.covered j, any_flushes-middle j p xs ys, nf j, f j, fz);
}

Step-IsConserved : {s u : Shared} → Step s u → IsConserved s → IsConserved u
Step-IsConserved {s} (add i count lt e) c = rw e (after_add-IsConserved s i count lt c)
Step-IsConserved {s} (add_exchange i xs ys at e) c =
    let c' : IsConserved (record s { calls = xs ++ flush i ∷ ys }) = rw (sym at) c in
    let lt : i < s.pc.num_counters =
      ground (arith, c'.placed, all_in_range-middle s.pc.num_counters (flush i) xs ys) in
    rw e (
      exchange-IsConserved s.pc s.brought i (flush i) (hold _) xs ys lt refl refl refl
        (λ j f. ground arith) c')
Step-IsConserved {s} (add_global k xs ys at e) c =
    let c' : IsConserved (record s { calls = xs ++ hold k ∷ ys }) = rw (sym at) c in
    rw e (
      global-IsConserved s.pc s.brought k (hold k) xs ys (xs ++ ys) refl (λ j. refl) refl (λ h. h)
        (λ j. refl) c')
Step-IsConserved {s} (sync e) c = rw e (record {
  counted = omega (arith, c.counted);
  placed = c.placed;
  small = c.small;
  covered = c.covered;
})
Step-IsConserved {s} (sync_exchange i xs ys lt at e) c =
    let c' : IsConserved (record s { calls = xs ++ syncing i ∷ ys }) = rw (sym at) c in
    rw e (
      exchange-IsConserved s.pc s.brought i (syncing i) (sync_hold _ (suc i)) xs ys lt refl refl
        refl (λ j f. ground arith) c')
Step-IsConserved {s} (sync_global k i xs ys at e) c =
    let c' : IsConserved (record s { calls = xs ++ sync_hold k i ∷ ys }) = rw (sym at) c in
    rw e (
      global-IsConserved s.pc s.brought k (sync_hold k i) xs ys (xs ++ syncing i ∷ ys) refl
        (λ j. refl) (held-middle (syncing i) xs ys ∙ omega arith)
        (λ h. ground (arith, all_in_range-middle s.pc.num_counters (syncing i) xs ys))
        (λ j. any_flushes-middle j (syncing i) xs ys) c')
Step-IsConserved {s} (sync_end i xs ys le at e) c = rw e (record {
  counted = omega (arith, c.counted, held-middle (syncing i) xs ys, ap held at);
  placed = ground (
    arith,
    c.placed,
    all_in_range-middle s.pc.num_counters (syncing i) xs ys,
    ap (all_in_range s.pc.num_counters) at,
  );
  small = c.small;
  covered = λ j f.
      ground (arith, c.covered j, any_flushes-middle j (syncing i) xs ys, ap (any_flushes j) at);
})

Reach-IsConserved : {s u : Shared} → Reach s u → IsConserved s → IsConserved u
Reach-IsConserved here c = c
Reach-IsConserved (next r st) c = Step-IsConserved st (Reach-IsConserved r c)

-- However the atomic accesses of any number of calls of pc_add and pc_sync interleave, the counters
-- and what the calls under way hold are together all the counts brought, modulo 2 ^ 64. Once no call
-- is under way, the counters hold all of it, and every local counter is within the threshold.
pub interleavings_conserve :
    {s u : Shared}
    → Reach s u
    → IsConserved s
    → (add64 (total u.pc) (held u.calls) ≡ u.brought)
      × (u.calls ≡ [] → (total u.pc ≡ u.brought) × IsBalanced u.pc)
unfolding total
interleavings_conserve {s} {u} r c =
    let c' = Reach-IsConserved r c in
    (
      c'.counted,
      λ e. (omega (arith, c'.counted, ap held e), λ i. c'.covered i (ap (any_flushes i) e)),
    )
