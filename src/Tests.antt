-- ===== src/Tests.antt =====
-- Small filters, and each theorem at an input that meets its hypotheses.
mod Filters
mod Bits
mod Locks
mod Adapting
mod Counting
mod Inserting
mod Counters
mod Variants
mod Iterating
mod Hashes
mod Merging
mod Creating
mod Adaptive
mod Tables
