-- ===== src/Counter.antt =====
-- The counters of src/partitioned_counter.c: one local counter for each processor, up to a number of
-- them, in front of a global one. An int64_t is a 64-bit word in two's complement.
pub mod Total
pub mod Refines
pub mod Threads
use ski_rental_adaptive_qf.Prelude.{
  ℕ, zero, suc, ◌%◌, ◌^◌, Bool, true, false, ◌||◌, Option, none, some, update, ltb, ◌==◌,
  if◌then◌else◌, Outcome, done, ◌>>◌, assert,
}
use ski_rental_adaptive_qf.Hash.{add64, sub64}

-- `partitioned_counter`, with the number that its global_counter points to.
pub record Pc : Type 0 where
  pub local_counters : ℕ → ℕ
  pub global_counter : ℕ
  pub num_counters : ℕ
  pub threshold : ℕ

-- `a < b` on int64_t.
abbrev pub signed_ltb : ℕ → ℕ → Bool
signed_ltb a b = ltb (add64 a (2 ^ 63)) (add64 b (2 ^ 63))

-- `min(a, b)`
abbrev pub min_of : ℕ → ℕ → ℕ
min_of a b = if ltb a b then a else b

-- The result of sysconf is an argument, none where it is negative, and so is whether calloc has
-- memory. The outcome is none for PC_ERROR.
unfoldable pub pc_init : Option ℕ → Bool → ℕ → ℕ → ℕ → Option Pc
pc_init none memory global num_counters threshold = none
pc_init (some num_cpus) false global num_counters threshold = none
pc_init (some num_cpus) true global num_counters threshold = some (record {
  local_counters = λ i. 0;
  global_counter = global;
  num_counters = if num_counters == 0 then num_cpus else min_of num_cpus num_counters;
  threshold = threshold;
})

-- `__atomic_add_fetch(&pc->local_counters[i].counter, count)`: the new value, and the state.
unfoldable pub add_fetch_local : Pc → ℕ → ℕ → ℕ × Pc
add_fetch_local pc i count =
    let cur : ℕ = add64 (pc.local_counters i) count in
    (cur, record pc { local_counters = update pc.local_counters i cur })

-- `__atomic_exchange_n(&pc->local_counters[i].counter, 0)`: the old value, and the state.
unfoldable pub exchange_local : Pc → ℕ → ℕ × Pc
exchange_local pc i =
    (pc.local_counters i, record pc { local_counters = update pc.local_counters i 0 })

-- `__atomic_fetch_add(pc->global_counter, c)`
unfoldable pub fetch_add_global : Pc → ℕ → Pc
fetch_add_global pc c = record pc { global_counter = add64 pc.global_counter c }

-- `cur_count > pc->threshold || cur_count < -pc->threshold`
unfoldable pub past_threshold : Pc → ℕ → Bool
past_threshold pc cur = signed_ltb pc.threshold cur || signed_ltb cur (sub64 0 pc.threshold)

-- `counter` takes its local count to the global one.
unfoldable pub flush_local : Pc → ℕ → Pc
unfolding exchange_local fetch_add_global
flush_local pc counter =
    let old : ℕ × Pc = exchange_local pc counter in fetch_add_global old.1 old.0

-- pc_add, once it knows the counter.
unfoldable pub add_at : Pc → ℕ → ℕ → Pc
unfolding add_fetch_local flush_local past_threshold
add_at pc counter_id count =
    let added : ℕ × Pc = add_fetch_local pc counter_id count in
    if past_threshold pc added.0 then flush_local added.1 counter_id else added.1

-- The result of sched_getcpu is an argument. With no counter the remainder is a division by 0.
unfoldable pub pc_add : Pc → ℕ → ℕ → Outcome Pc
unfolding add_at
pc_add pc cpuid count =
    assert (ltb 0 pc.num_counters) >> done (add_at pc (cpuid % pc.num_counters) count)

-- The loop of pc_sync, over counters from the first of those left.
unfoldable pub pc_sync_loop : ℕ → ℕ → Pc → Pc
unfolding flush_local
pc_sync_loop zero i pc = pc
pc_sync_loop (suc left) i pc = pc_sync_loop left (suc i) (flush_local pc i)

unfoldable pub pc_sync : Pc → Pc
unfolding pc_sync_loop
pc_sync pc = pc_sync_loop pc.num_counters 0 pc

-- The local counters are freed; what the global counter then holds is the result.
unfoldable pub pc_destructor : Pc → ℕ
unfolding pc_sync
pc_destructor pc = (pc_sync pc).global_counter
