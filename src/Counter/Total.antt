-- ===== src/Counter/Total.antt =====
-- What the counters hold together, and how far a local counter is from 0.
use ski_rental_adaptive_qf.Prelude.{
  ℕ, zero, suc, ◌+◌, ◌*◌, ◌%◌, ◌^◌, ◌≤◌, ◌<◌, ◌≡◌, refl, inl, inr, false, arith, update, ◌==◌,
  lt→ltb, ==_iff, Bool-cases, done,
}
use ski_rental_adaptive_qf.Hash.{add64}
use ski_rental_adaptive_qf.Counter.{
  Pc, add_fetch_local, exchange_local, fetch_add_global, past_threshold, flush_local, add_at,
  pc_add,
}

-- The sum of the first n local counters.
abbrev pub sum_below : ℕ → (ℕ → ℕ) → ℕ
sum_below zero f = 0
sum_below (suc n) f = f n + sum_below n f

-- The count that the counters hold: the global counter and all local ones.
unfoldable pub total : Pc → ℕ
total pc = add64 pc.global_counter (sum_below pc.num_counters pc.local_counters)

pub sum_below-update_above :
    (n i v : ℕ) (f : ℕ → ℕ) → n ≤ i → sum_below n (update f i v) ≡ sum_below n f
sum_below-update_above zero i v f h = refl
sum_below-update_above (suc n) i v f h =
    ground (arith, sum_below-update_above n i v f (omega arith))

pub sum_below-update :
    (n i v : ℕ) (f : ℕ → ℕ) → i < n → sum_below n (update f i v) + f i ≡ sum_below n f + v
sum_below-update zero i v f h = absurd (omega arith)
sum_below-update (suc n) i v f h = elim (Bool-cases (i == n)) [
  | inl e ↦
      let e' : i ≡ n = (==_iff i n).0 e in
      ground (arith, sum_below-update_above n i v f (omega arith))
  | inr ne ↦ let lt : i < n = ground arith in ground (arith, sum_below-update n i v f lt)
]

-- A local counter is at most t from 0.
abbrev pub IsWithin : ℕ → ℕ → Type 0
IsWithin t c = add64 c t ≤ 2 * t

-- All local counters are.
abbrev pub IsBalanced : Pc → Type 0
IsBalanced pc = (i : ℕ) → IsWithin pc.threshold (pc.local_counters i)

pub past_threshold-IsWithin :
    (pc : Pc) (cur : ℕ)
    → pc.threshold < 2 ^ 31
    → cur < 2 ^ 64
    → past_threshold pc cur ≡ false
    → IsWithin pc.threshold cur
unfolding past_threshold
past_threshold-IsWithin pc cur t c h = ground arith

pub add_fetch_local-total :
    (pc : Pc) (i count : ℕ)
    → i < pc.num_counters
    → total (add_fetch_local pc i count).1 ≡ add64 (total pc) count
unfolding add_fetch_local total
add_fetch_local-total pc i count h = omega (
  arith,
  sum_below-update pc.num_counters i (add64 (pc.local_counters i) count) pc.local_counters h,
)

pub exchange_local-total :
    (pc : Pc) (i : ℕ)
    → i < pc.num_counters
    → add64 (total (exchange_local pc i).1) (exchange_local pc i).0 ≡ total pc
unfolding exchange_local total
exchange_local-total pc i h =
    omega (arith, sum_below-update pc.num_counters i 0 pc.local_counters h)

pub fetch_add_global-total : (pc : Pc) (c : ℕ) → total (fetch_add_global pc c) ≡ add64 (total pc) c
unfolding fetch_add_global total
fetch_add_global-total pc c = omega arith

pub flush_local-total :
    (pc : Pc) (i : ℕ) → i < pc.num_counters → total (flush_local pc i) ≡ total pc
unfolding flush_local
flush_local-total pc i h = omega (
  arith,
  exchange_local-total pc i h,
  fetch_add_global-total (exchange_local pc i).1 (exchange_local pc i).0,
)

pub flush_local-IsBalanced : (pc : Pc) (i : ℕ) → IsBalanced pc → IsBalanced (flush_local pc i)
unfolding flush_local exchange_local fetch_add_global
flush_local-IsBalanced pc i b j = ground (arith, b j)

pub add_at-total :
    (pc : Pc) (i count : ℕ)
    → i < pc.num_counters
    → total (add_at pc i count) ≡ add64 (total pc) count
unfolding add_at
add_at-total pc i count h = elim (Bool-cases (past_threshold pc (add_fetch_local pc i count).0)) [
  | inl past ↦ rw past (
      omega (
        arith,
        add_fetch_local-total pc i count h,
        flush_local-total (add_fetch_local pc i count).1 i h,
      ))
  | inr within ↦ rw within (add_fetch_local-total pc i count h)
]

pub add_at-IsBalanced :
    (pc : Pc) (i count : ℕ) → pc.threshold < 2 ^ 31 → IsBalanced pc → IsBalanced (add_at pc i count)
unfolding add_at add_fetch_local flush_local exchange_local fetch_add_global
add_at-IsBalanced pc i count t b j =
    grind (arith, b j, past_threshold-IsWithin pc (add64 (pc.local_counters i) count) t)

-- What adding leaves as it is.
pub add_at-same :
    (pc : Pc) (i count : ℕ)
    → ((add_at pc i count).num_counters ≡ pc.num_counters)
      × ((add_at pc i count).threshold ≡ pc.threshold)
unfolding add_at add_fetch_local flush_local exchange_local fetch_add_global
add_at-same pc i count = ground arith

pub pc_add-done :
    (pc : Pc) (cpuid count : ℕ)
    → 0 < pc.num_counters
    → pc_add pc cpuid count ≡ done (add_at pc (cpuid % pc.num_counters) count)
unfolding pc_add
pc_add-done pc cpuid count n = rw (lt→ltb 0 pc.num_counters n) refl
