-- ===== src/Qf/Create.antt =====
-- How a filter is made and emptied: qf_init, qf_malloc, qf_reset and qf_set_auto_resize of src/gqf.c.
pub mod Sizes
pub mod Empty
use ski_rental_adaptive_qf.Prelude.{
  ℕ, zero, suc, ◌+◌, ◌-◌, ◌*◌, ◌/◌, ◌%◌, ◌^◌, ◌≤◌, ◌<◌, min, bit_and, bit_or, bit_xor, ◌≡◌, refl,
  sym, ap, ◌∙◌, fun_ext, ◌≢◌, ◌↔◌, ◌⊎◌, inl, inr, Bool, true, false, ◌&&◌, ◌||◌, not, Option, none,
  some, List, [], ◌∷◌, ◌++◌, map, arith, dec_lt, ℕ_discrete, update, ltb, leb, ◌==◌, if◌then◌else◌,
  ltb→lt, lt→ltb, leb→le, ==_iff, Bool-cases, Outcome, done, abort, spin, ◌>>=◌, ◌>>◌, assert,
  >>=-eq-done, >>=-cong, >>=-done, assert-true, if-true, if-false, all-bind, all-done, all-if,
  all-assert, ℤ, pos, negsuc, sub_ℕ,
}
use ski_rental_adaptive_qf.Qf.{
  HashMode, hash_default, hash_invertible, hash_none, Flags, Qf, no_space, hash_key, rounds,
}
use ski_rental_adaptive_qf.Hash.{add64, sub64, mul64, not64, shl, shr, low_bits}
use ski_rental_adaptive_qf.Word.{popcnt}
use ski_rental_adaptive_qf.Row.{Row, bit}

-- What stands in the buffer behind the metadata, which nothing clears.
pub record Blocks : Type 0 where
  pub offset : ℕ → ℕ
  pub occupieds : Row
  pub runends : Row
  pub extensions : Row
  pub remainders : Row

-- `while (nslots > 1 && key_remainder_bits > 0) { key_remainder_bits--; nslots >>= 1; }`
unfoldable pub remainder_bits : ℕ → ℕ → ℕ
remainder_bits zero nslots = zero
remainder_bits (suc bits) nslots =
    let rest = remainder_bits bits (nslots / 2) in if ltb 1 nslots then rest else suc bits

-- `while (qbits > 1) { qbits >>= 1; quotient_bits++; }`. 64 rounds shift a uint64_t out.
unfoldable pub count_quotient_bits : ℕ → ℕ → ℕ → Outcome ℕ
count_quotient_bits zero qbits quotient_bits = spin
count_quotient_bits (suc fuel) qbits quotient_bits = elim (ltb 1 qbits) [
  | true ↦ count_quotient_bits fuel (qbits / 2) (quotient_bits + 1)
  | false ↦ done quotient_bits
]

-- sizeof(qfblock), which is packed: the offset and three words.
abbrev pub block_bytes : ℕ
block_bytes = 25

-- `(xnslots + QF_SLOTS_PER_BLOCK - 1) / QF_SLOTS_PER_BLOCK`
abbrev pub blocks_for : ℕ → ℕ
blocks_for xnslots = (xnslots + 64 - 1) / 64

module _ (extra : ℕ → ℕ) (metadata_bytes : ℕ) where
  -- The asserts and the sizes at the start of qf_init: the remainder bits and the bytes in all.
  -- `extra nslots` is `10*sqrt((double)nslots)`, the slots behind the last bucket, and
  -- metadata_bytes is sizeof(qfmetadata).
  unfoldable pub init_sizes : ℕ → ℕ → ℕ → Outcome (ℕ × ℕ)
  unfolding remainder_bits
  init_sizes nslots key_bits value_bits = do
    assert (popcnt (bit nslots) == 1)
    let key_remainder_bits : ℕ = remainder_bits key_bits nslots
    assert (leb 2 key_remainder_bits)
    let bits_per_slot : ℕ = key_remainder_bits + value_bits
    assert (ltb 1 bits_per_slot)
    done (
      key_remainder_bits,
      metadata_bytes + blocks_for (nslots + extra nslots) * (block_bytes + 64 * bits_per_slot / 8),
    )

  -- What qf_init writes, over the blocks that it finds.
  abbrev pub initial : ℕ → ℕ → ℕ → HashMode → ℕ → Blocks → ℕ → ℕ → Qf
  initial nslots key_bits value_bits hash seed blocks key_remainder_bits quotient_bits = record {
    hash_mode = hash;
    seed = seed;
    nslots = nslots;
    xnslots = nslots + extra nslots;
    key_bits = key_bits;
    value_bits = value_bits;
    key_remainder_bits = key_remainder_bits;
    bits_per_slot = key_remainder_bits + value_bits;
    quotient_bits = quotient_bits;
    range = nslots * 2 ^ key_remainder_bits % 2 ^ 128;
    nblocks = blocks_for (nslots + extra nslots);
    nelts = 0;
    ndistinct_elts = 0;
    noccupied_slots = 0;
    offset = blocks.offset;
    occupieds = blocks.occupieds;
    runends = blocks.runends;
    extensions = blocks.extensions;
    remainders = blocks.remainders;
    auto_resize = false;
    locks = λ i. false;
  }

  -- The buffer is none for NULL, else its blocks and its length. The filter is none where qf_init
  -- returns before it writes to it.
  unfoldable pub qf_init : ℕ → ℕ → ℕ → HashMode → ℕ → Option Blocks → ℕ → Outcome (ℕ × Option Qf)
  unfolding init_sizes count_quotient_bits
  qf_init nslots key_bits value_bits hash seed none buffer_len = do
    (key_remainder_bits, bytes) ← init_sizes nslots key_bits value_bits
    done (bytes, none)
  qf_init nslots key_bits value_bits hash seed (some blocks) buffer_len = do
    (key_remainder_bits, bytes) ← init_sizes nslots key_bits value_bits
    if ltb buffer_len bytes then done (bytes, none) else (do
      quotient_bits ← count_quotient_bits 64 nslots 0
      done (
        bytes,
        some (initial nslots key_bits value_bits hash seed blocks key_remainder_bits quotient_bits),
      ))

  -- qf_malloc, where malloc and calloc have memory; they exit otherwise. What malloc leaves in the
  -- blocks is an argument. The filter is none where qf_malloc returns false.
  unfoldable pub qf_malloc : ℕ → ℕ → ℕ → HashMode → ℕ → Blocks → Outcome (Option Qf)
  unfolding qf_init
  qf_malloc nslots key_bits value_bits hash seed memory = do
    (total_num_bytes, _) ← qf_init nslots key_bits value_bits hash seed none 0
    (init_size, filter) ← qf_init nslots key_bits value_bits hash seed (some memory) total_num_bytes
    done (if init_size == total_num_bytes then filter else none)

-- A row whose first n bits are cleared.
abbrev pub clear_row : ℕ → Row → Row
clear_row n row i = if ltb i n then false else row i

unfoldable pub qf_reset : Qf → Qf
qf_reset qf = record qf {
  nelts = 0;
  ndistinct_elts = 0;
  noccupied_slots = 0;
  offset = λ b. if ltb b qf.nblocks then 0 else qf.offset b;
  occupieds = clear_row (64 * qf.nblocks) qf.occupieds;
  runends = clear_row (64 * qf.nblocks) qf.runends;
  extensions = clear_row (64 * qf.nblocks) qf.extensions;
  remainders = clear_row (64 * qf.nblocks * qf.bits_per_slot) qf.remainders;
}

unfoldable pub qf_set_auto_resize : Qf → Bool → Qf
qf_set_auto_resize qf enabled = record qf { auto_resize = enabled }
