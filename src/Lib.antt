-- ===== src/Lib.antt =====
-- The adaptive quotient filter of src/gqf.c and the tables beside it.
--
-- The filter keeps a multiset of fingerprints. A key is hashed (src/hashutil.c); the lowest
-- bits_per_slot bits of the hash are its remainder, the next quotient_bits bits name its bucket. The
-- remainders of a bucket stand in one run of slots, in the order of their values. Behind an item's
-- first slot stand its extension slots, which hold more bits of its hash, and its counter slots. An
-- operation finds a run by selecting in the words of metadata bits, walks it slot by slot, and makes
-- room by shifting slots and metadata up to the next empty slot. When a query meets a false positive
-- the client calls adapt, which gives the item more extension slots until its fingerprint differs
-- from that of the key queried. The keys behind the fingerprints are kept by the client in the table
-- of src/ll_table.c, under the remainder and quotient (the minirun) and the rank that the filter
-- reports.
--
-- Files, with the code that each models:
--   Prelude: shared names; Prelude/Effects: the outcome of a run, which is a value, `abort` for a
--     failed assert or a null pointer, or `spin` for a loop that does not end; Prelude/Int: signed
--     differences; Prelude/Tests: Boolean tests.
--   Word, Word/Rank, Word/Select, Word/ShiftInto: 64-bit words as functions from positions to bits,
--     with popcnt, popcntv, bitrank, bitselect, bitselectv and shift_into_b of src/gqf.c.
--   Row, Row/Shift, Row/Fields: the metadata bits and the packed remainders across all blocks of
--     include/gqf_int.h, the shifts over them and the fields in them.
--   Hash, Arith: MurmurHash64A, hash_64 and hash_64i of src/hashutil.c, and 64-bit arithmetic;
--     Hash/Xor, Hash/Congruence, Hash/Inverse, Hash/Inverse/Stages: proofs on hash_64 and hash_64i.
--   Qf: the state of a filter (quotient_filter of include/gqf_int.h), and below it Qf/Bits (the tests
--     on a slot, get_slot, set_slot), Qf/Locks (qf_lock, qf_unlock), Qf/Runs (block_offset, run_end,
--     offset_lower_bound, find_first_empty_slot), Qf/Shifts (shift_remainders, shift_runends,
--     insert_one_slot), Qf/SlotInfo (get_slot_info), Qf/Query (the five queries), Qf/Adapt (adapt,
--     qf_adapt, qf_adapt_using_ll_table), Qf/Extend (insert_and_extend), Qf/Insert (insert,
--     insert_using_ll_table and their callers) and Qf/Remove (_remove, qf_remove). Child modules
--     hold the proofs: Qf/Locks/Exclusion, Qf/Slots, Qf/Shifts/Slots, Qf/Query/Agree, Qf/Query/Sound,
--     Qf/Query/Ends, Qf/Adapt/Separate, Qf/Adapt/Fuel, Qf/Insert/Locks,
--     Qf/Insert/LlLocks, Qf/Insert/Existing, Qf/Extend/Misplaced, Qf/Remove/LockLeak,
--     Qf/Remove/Skip. Qf/Insert/LlTable models insert_using_ll_table and
--     Qf/Query/Counts the two count queries.
--     Qf/Create with Qf/Create/Sizes and Qf/Create/Empty: qf_init, qf_malloc, qf_reset. Qf/Metadata,
--     Qf/Extend/Recount and Qf/Extend/CountUp: what a higher count changes and what queries then find.
--     Qf/Iterate, Qf/Iterate/Forward, Qf/Iterate/Wraps: the iterator (qf_iterator_from_position, qfi_get_hash, qfi_next).
--     Qf/Merge: _finger_cmp and _merge_insert, with Qf/Merge/Filters (qf_merge_ret, qf_merge) and
--     Qf/Merge/Resize (qf_resize_malloc); proofs in Qf/Merge/Order, Frame, Uncounted, Stuck, and on
--     what is written and read back in Digits, Written, Loops, ReadBack, Placed, Inserted,
--     Bounded and Copied, on the fuel of the loops in Fuel, Fuel/MainLoop and Fuel/Drains.
--     Qf/Bulk with Qf/Bulk/SortKeys and Qf/Bulk/Uncounted: qf_hash_cmp, bulk_insert_sort_hashes and
--     qf_bulk_insert. Qf/Adapt/Keys: qf_adapt on keys.
--   Counter, Counter/Total, Counter/Refines, Counter/Threads: src/partitioned_counter.c, as runs of
--     calls and as interleavings of their atomic accesses.
--   Variants, Variants/Answers, Variants/SkiRental: variants/*.hpp, the filters that adapt, over any
--     reverse map, and the loop of bench/cpp/bench_variants.cc that queries and adapts.
--     Variants/Hybrid, Variants/Hybrid/Windows, Variants/Hybrid/Repeats: HybridSkiQF. Variants/Load,
--     Variants/Load/Fills: bulkLoad, with Qf/Insert/LlCounts on the slots that an insertion takes.
--     Variants/ReverseMaps, Variants/ReverseMaps/Packing: db/mock_db.hpp and
--     db/wiredtiger_reverse_map.hpp.
--   LlTable, LlTable/Lookup: src/ll_table.c. HashTable, HashTable/Membership: src/hash_table.c.
--   Tests and its children: small filters and tables, and theorems applied to them.
--
-- Conventions. A C function that writes through pointers takes the filter as an argument and returns
-- the new one beside its result. Numbers are natural numbers; where 64-bit arithmetic can wrap, the
-- modulus is written out (add64, sub64, shl and not64 of Hash). A loop whose end is not plain is
-- recursion on fuel; `rounds` of Qf.antt is one more than the number of slots in all blocks, which is
-- enough for a loop that moves on by a slot or a block in each round and stays within the blocks;
-- adapt has 64 rounds, one for each bit of a hash. Without fuel the outcome is
-- `spin`, never a value. Asserts are kept, as without NDEBUG. get_slot and set_slot read and write
-- through one 64-bit word, as the source does, so that wide slots that do not start at a byte lose
-- their high bits. A shift by 64, which C leaves undefined, takes its amount modulo 64 in bitselect,
-- in shift_into_b, in get_slot_info and in the extension of a bulk hash, as the machine does.
--
-- The build modelled is the Makefile's: QF_BITS_PER_SLOT 0 (slots of any width, packed), BMI2
-- instructions for select, METADATA_INC_MODE 1, no SEVEN_BIT_OFFSET and no LOG_WAIT_TIME. Threads are
-- not modelled: an operation runs alone on the state of the locks that it finds, and a wait for a
-- lock that is held does not end; only the partitioned counters are modelled under threads. What malloc
-- leaves in memory, the result of rand() and the resize callback are arguments. So is what is not
-- code of this repository: the cursor of WiredTiger with its documented law, std::sort as a
-- permutation, and the doubles of the moving averages, of which an average of zeros is zero. A
-- truncation of a 64-bit slot number to int, as in get_slot_info, is not modelled: slots are
-- numbered below 2 ^ 31.
--
-- Not modelled: qf_use, qf_copy, qf_resize and the getters; qf_iterator_from_key_value,
-- qfi_get_key, qf_multi_merge, qf_count_key_value, qf_inner_product, qf_intersect and qf_magnitude,
-- which are marked as not to be used; the debug variants and dumps of src/gqf.c, file access, the
-- benchmarks, the other bindings to databases, and src/taf.cc and the filters under other_filters,
-- which are copies of other projects.
pub mod Prelude
pub mod Word
pub mod Row
pub mod Hash
pub mod Arith
pub mod Qf
pub mod LlTable
pub mod HashTable
pub mod Counter
pub mod Variants
pub mod Tests
