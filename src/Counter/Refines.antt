-- ===== src/Counter/Refines.antt =====
-- The counters against one plain counter: what runs of pc_add and pc_sync leave.
use ski_rental_adaptive_qf.Prelude.{
  ℕ, zero, suc, ◌+◌, ◌*◌, ◌%◌, ◌^◌, ◌<◌, ◌≡◌, refl, sym, ◌∙◌, List, [], ◌∷◌, arith, Outcome, done,
  ◌>>=◌,
}
use ski_rental_adaptive_qf.Hash.{add64, sub64}
use ski_rental_adaptive_qf.Counter.{
  Pc, add_fetch_local, exchange_local, fetch_add_global, flush_local, add_at, pc_add, pc_sync_loop,
  pc_sync,
}
use ski_rental_adaptive_qf.Counter.Total.{
  sum_below, total, IsWithin, IsBalanced, flush_local-total, add_at-total, add_at-IsBalanced,
  add_at-same, flush_local-IsBalanced, pc_add-done,
}
use native.Mathlib.Nat.{mod-lt}

-- A call on the counters: pc_add on a processor, or pc_sync.
pub data Call : Type 0 where
  add : ℕ → ℕ → Call
  sync : Call

unfoldable pub run : Pc → List Call → Outcome Pc
unfolding pc_add pc_sync
run pc [] = done pc
run pc (add cpuid count ∷ calls) = pc_add pc cpuid count >>= λ pc'. run pc' calls
run pc (sync ∷ calls) = run (pc_sync pc) calls

-- The plain counter: it adds each count, and a sync does nothing.
unfoldable pub counted : ℕ → List Call → ℕ
counted n [] = n
counted n (add cpuid count ∷ calls) = counted (add64 n count) calls
counted n (sync ∷ calls) = counted n calls

pub record IsSound (pc : Pc) : Type 0 where
  pub some_counter : 0 < pc.num_counters
  pub small : pc.threshold < 2 ^ 31
  pub balanced : IsBalanced pc
  pub word : pc.global_counter < 2 ^ 64

add_at-word :
    (pc : Pc) (i count : ℕ)
    → pc.global_counter < 2 ^ 64
    → (add_at pc i count).global_counter < 2 ^ 64
unfolding add_at flush_local add_fetch_local exchange_local fetch_add_global
add_at-word pc i count h = ground arith

add_at-IsSound : (pc : Pc) (i count : ℕ) → IsSound pc → IsSound (add_at pc i count)
add_at-IsSound pc i count s =
    let same = add_at-same pc i count in
    record {
      some_counter = omega (arith, s.some_counter, same.0);
      small = omega (arith, s.small, same.1);
      balanced = add_at-IsBalanced pc i count s.small s.balanced;
      word = add_at-word pc i count s.word;
    }

flush_local-IsSound : (pc : Pc) (i : ℕ) → IsSound pc → IsSound (flush_local pc i)
unfolding flush_local exchange_local fetch_add_global
flush_local-IsSound pc i s = record {
  some_counter = s.some_counter;
  small = s.small;
  balanced = flush_local-IsBalanced pc i s.balanced;
  word = omega arith;
}

-- What the loop of pc_sync does from a counter on.
pc_sync_loop-total :
    (left i : ℕ) (pc : Pc)
    → i + left ≡ pc.num_counters
    → IsSound pc
    → (total (pc_sync_loop left i pc) ≡ total pc)
      × IsSound (pc_sync_loop left i pc)
      × ((pc_sync_loop left i pc).num_counters ≡ pc.num_counters)
unfolding pc_sync_loop
pc_sync_loop-total zero i pc h s = (refl, s, refl)
pc_sync_loop-total (suc left) i pc h s =
    let same : (flush_local pc i).num_counters ≡ pc.num_counters = refl in
    let (t, u, v) =
      pc_sync_loop-total left (suc i) (flush_local pc i) (omega (arith, same))
        (flush_local-IsSound pc i s) in
    (t ∙ flush_local-total pc i (omega arith), u, v ∙ same)

pc_sync_loop-zero :
    (left i : ℕ) (pc : Pc)
    → ((j : ℕ) → j < i → pc.local_counters j ≡ 0)
    → (j : ℕ) → j < i + left
    → (pc_sync_loop left i pc).local_counters j ≡ 0
unfolding pc_sync_loop flush_local exchange_local fetch_add_global
pc_sync_loop-zero zero i pc z j h = z j (omega arith)
pc_sync_loop-zero (suc left) i pc z j h =
    pc_sync_loop-zero left (suc i) (flush_local pc i) (λ j p. ground (arith, z j)) j (omega arith)

sum_below-zero : (n : ℕ) (f : ℕ → ℕ) → ((j : ℕ) → j < n → f j ≡ 0) → sum_below n f ≡ 0
sum_below-zero zero f z = refl
sum_below-zero (suc n) f z =
    omega (arith, z n (omega arith), sum_below-zero n f (λ j p. z j (omega arith)))

sum_below-IsWithin :
    (n t : ℕ) (f : ℕ → ℕ) → ((j : ℕ) → IsWithin t (f j)) → IsWithin (n * t) (sum_below n f)
sum_below-IsWithin zero t f w = omega arith
sum_below-IsWithin (suc n) t f w = omega (arith, w n, sum_below-IsWithin n t f w)

pub pc_sync-total : (pc : Pc) → IsSound pc → (total (pc_sync pc) ≡ total pc) × IsSound (pc_sync pc)
unfolding pc_sync
pc_sync-total pc s =
    let (t, u, v) = pc_sync_loop-total pc.num_counters 0 pc (omega arith) s in (t, u)

-- pc_sync takes everything to the global counter.
pub pc_sync-global : (pc : Pc) → IsSound pc → (pc_sync pc).global_counter ≡ total pc
unfolding pc_sync total
pc_sync-global pc s =
    let (t, u, v) = pc_sync_loop-total pc.num_counters 0 pc (omega arith) s in
    let z = pc_sync_loop-zero pc.num_counters 0 pc (λ j p. absurd (omega arith)) in
    let rest =
      sum_below-zero (pc_sync pc).num_counters (pc_sync pc).local_counters
        (λ j p. z j (omega (arith, v))) in
    omega (arith, t, rest, u.word)

sub64-IsWithin :
    (global locals t : ℕ)
    → global < 2 ^ 64
    → IsWithin t locals
    → IsWithin t (sub64 (add64 global locals) global)
sub64-IsWithin global locals t g w = omega arith

lag-IsWithin :
    (pc : Pc)
    → IsSound pc
    → IsWithin (pc.num_counters * pc.threshold) (sub64 (total pc) pc.global_counter)
unfolding total
lag-IsWithin pc s =
    sub64-IsWithin pc.global_counter (sum_below pc.num_counters pc.local_counters)
      (pc.num_counters * pc.threshold) s.word
      (sum_below-IsWithin pc.num_counters pc.threshold pc.local_counters s.balanced)

-- Any run of pc_add and pc_sync from counters in order ends, and refines the plain counter: the
-- counters hold its count together, the global counter alone is off by at most the number of
-- counters times the threshold, and is the count after a pc_sync.
pub run-counted :
    (pc : Pc) (calls : List Call)
    → IsSound pc
    → (pc' : Pc) × (run pc calls ≡ done pc')
      × (total pc' ≡ counted (total pc) calls)
      × IsSound pc'
      × IsWithin
          (pc'.num_counters * pc'.threshold)
          (sub64 (counted (total pc) calls) pc'.global_counter)
      × ((pc_sync pc').global_counter ≡ counted (total pc) calls)
unfolding run counted
run-counted pc [] s = (pc, refl, refl, s, lag-IsWithin pc s, pc_sync-global pc s)
run-counted pc (add cpuid count ∷ calls) s =
    let i : ℕ = cpuid % pc.num_counters in
    let step = add_at-total pc i count (mod-lt cpuid s.some_counter) in
    rw (pc_add-done pc cpuid count s.some_counter, sym step)
      (run-counted (add_at pc i count) calls (add_at-IsSound pc i count s))
run-counted pc (sync ∷ calls) s =
    let same = pc_sync-total pc s in rw (sym same.0) (run-counted (pc_sync pc) calls same.1)
