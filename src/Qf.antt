-- ===== src/Qf.antt =====
-- The state of a filter (src/gqf.c, include/gqf_int.h): metadata, blocks and locks.
pub mod Bits
pub mod Slots
pub mod Locks
pub mod Runs
pub mod Shifts
pub mod SlotInfo
pub mod Metadata
pub mod Query
pub mod Adapt
pub mod Extend
pub mod Insert
pub mod Remove
pub mod Create
pub mod Iterate
pub mod Merge
pub mod Bulk
use ski_rental_adaptive_qf.Prelude.{ℕ, Bool, if◌then◌else◌, ◌*◌, ◌+◌, ◌-◌, ◌^◌}
use ski_rental_adaptive_qf.Row.{Row}
use ski_rental_adaptive_qf.Hash.{murmur_hash_64a, hash_64}
use ski_rental_adaptive_qf.Prelude.{[], ◌∷◌}

-- `enum qf_hashmode`
pub data HashMode : Type 0 where
  hash_default hash_invertible hash_none : HashMode

-- The bits of the `uint8_t flags` that each call takes.
pub record Flags : Type 0 where
  pub no_lock : Bool
  pub try_once_lock : Bool
  pub wait_for_lock : Bool
  pub key_is_hash : Bool

-- `quotient_filter`: the metadata, the parts of the blocks as rows over all blocks (the offset byte
-- of block b is `offset b`), and of the runtime data the locks and the auto_resize flag.
pub record Qf : Type 0 where
  pub hash_mode : HashMode
  pub seed : ℕ
  pub nslots : ℕ
  pub xnslots : ℕ
  pub key_bits : ℕ
  pub value_bits : ℕ
  pub key_remainder_bits : ℕ
  pub bits_per_slot : ℕ
  pub quotient_bits : ℕ
  pub range : ℕ
  pub nblocks : ℕ
  pub nelts : ℕ
  pub ndistinct_elts : ℕ
  pub noccupied_slots : ℕ
  pub offset : ℕ → ℕ
  pub occupieds : Row
  pub runends : Row
  pub extensions : Row
  pub remainders : Row
  pub auto_resize : Bool
  pub locks : ℕ → Bool

-- `QF_NO_SPACE`, -1, as the uint64_t that get_slot returns.
abbrev pub no_space : ℕ
no_space = 2 ^ 64 - 1

-- The key as the filter sees it: hashed unless the caller says that it is a hash already.
unfoldable pub hash_key : Qf → ℕ → Flags → ℕ
hash_key qf key flags = if flags.key_is_hash then key else by_mode qf.hash_mode
  where
    by_mode : HashMode → ℕ
    by_mode hash_default = murmur_hash_64a (key ∷ []) [] 8 qf.seed
    by_mode hash_invertible = hash_64 key (2 ^ 64 - 1)
    by_mode hash_none = key

-- Rounds that a walk over the slots is given: one for each slot of the blocks, and one to stop.
abbrev pub rounds : Qf → ℕ
rounds qf = 64 * qf.nblocks + 1
