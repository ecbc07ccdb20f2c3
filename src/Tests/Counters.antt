-- ===== src/Tests/Counters.antt =====
-- Counters of src/partitioned_counter.c on four processors with threshold 100.
use ski_rental_adaptive_qf.Prelude.{
  ◌-◌, ◌*◌, ◌^◌, ◌≡◌, refl, true, some, List, [], ◌∷◌, arith, done,
}
use ski_rental_adaptive_qf.Hash.{add64, sub64}
use ski_rental_adaptive_qf.Counter.{Pc, pc_init, pc_sync}
use ski_rental_adaptive_qf.Counter.Total.{total, IsWithin, IsBalanced}
use ski_rental_adaptive_qf.Counter.Refines.{Call, add, run, counted, IsSound, run-counted}
use ski_rental_adaptive_qf.Counter.Threads.{
  Shared, after_add, add as c_add, Reach, here, next, held, IsConserved, interleavings_conserve,
}

abbrev four : Pc
four = record { local_counters = λ i. 0; global_counter = 5; num_counters = 4; threshold = 100 }

four-init : pc_init (some 4) true 5 8 100 ≡ some four
unfolding pc_init
four-init = refl

four-IsSound : IsSound four
four-IsSound = record {
  some_counter = omega arith;
  small = omega arith;
  balanced = λ i. omega arith;
  word = omega arith;
}

-- 60 on processor 1, 60 on processor 5, which has the same counter, and -30 on processor 2.
abbrev three_calls : List Call
three_calls = add 1 60 ∷ add 5 60 ∷ add 2 (2 ^ 64 - 30) ∷ []

abbrev after_two : Pc
unfolding run
after_two = elim (run four (add 1 60 ∷ add 5 60 ∷ [])) [ done pc ↦ pc | _ ↦ four ]

flushed : (after_two.global_counter ≡ 125) × (after_two.local_counters 1 ≡ 0)
unfolding run
flushed = (refl, refl)

run-counted_example :
    (pc' : Pc) × (run four three_calls ≡ done pc')
    × (total pc' ≡ counted (total four) three_calls)
    × IsSound pc'
    × IsWithin
        (pc'.num_counters * pc'.threshold)
        (sub64 (counted (total four) three_calls) pc'.global_counter)
    × ((pc_sync pc').global_counter ≡ counted (total four) three_calls)
run-counted_example = run-counted four three_calls four-IsSound

abbrev shared₀ : Shared
shared₀ = record { pc = four; calls = []; brought = 5 }

abbrev shared₁ : Shared
shared₁ = after_add shared₀ 1 101

abbrev shared₂ : Shared
shared₂ = after_add shared₁ 1 7

-- Two calls on one counter: the second adds before the first has emptied it.
two_calls : Reach shared₀ shared₂
unfolding after_add
two_calls = next (next here (c_add 1 101 (omega arith) refl)) (c_add 1 7 (omega arith) refl)

shared₀-IsConserved : IsConserved shared₀
unfolding total
shared₀-IsConserved = record {
  counted = refl;
  placed = refl;
  small = omega arith;
  covered = λ i h. omega arith;
}

interleavings_conserve_example :
    (add64 (total shared₂.pc) (held shared₂.calls) ≡ shared₂.brought)
    × (shared₂.calls ≡ [] → (total shared₂.pc ≡ shared₂.brought) × IsBalanced shared₂.pc)
interleavings_conserve_example = interleavings_conserve two_calls shared₀-IsConserved
