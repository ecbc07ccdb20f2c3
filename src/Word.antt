-- ===== src/Word.antt =====
-- The bit operations of src/gqf.c on 64-bit words: BITMASK, popcnt, popcntv, bitrank, bitselect,
-- bitselectv and shift_into_b. A word is the row of its bits, of which the positions below 64 count.
-- The instructions that the inline assembly names, popcnt, pdep and tzcnt, are written out on bits.
pub mod Select
pub mod Rank
pub mod ShiftInto
use ski_rental_adaptive_qf.Prelude.{
  ℕ, zero, suc, ◌+◌, ◌-◌, ◌%◌, Bool, true, false, ◌&&◌, ◌||◌, not, ltb, ◌==◌, if◌then◌else◌,
}

abbrev pub Word : Type 0
Word = ℕ → Bool

-- `a & b`, `a | b` and `~a`
infixl 45 ◌&w◌
abbrev pub ◌&w◌ : Word → Word → Word
◌&w◌ a b i = a i && b i

infixl 44 ◌|w◌
abbrev pub ◌|w◌ : Word → Word → Word
◌|w◌ a b i = a i || b i

abbrev pub not_word : Word → Word
not_word a i = not (a i)

abbrev pub zero_word : Word
zero_word i = false

-- `a << n` and `a >> n`: bits that leave the word are lost, and zeros come in.
abbrev pub shl_word : Word → ℕ → Word
shl_word a n i = if ltb i n then false else if ltb i 64 then a (i - n) else false

abbrev pub shr_word : Word → ℕ → Word
shr_word a n i = if ltb (i + n) 64 then a (i + n) else false

-- `BITMASK(nbits)`: the lowest nbits bits are set.
abbrev pub bitmask_word : ℕ → Word
bitmask_word nbits i = ltb i nbits

-- `1ULL << n`
abbrev pub one_word : ℕ → Word
one_word n i = i == n

abbrev pub bit_val : Bool → ℕ
bit_val true = 1
bit_val false = 0

-- The number of set bits at the positions below n.
unfoldable pub count_ones : Word → ℕ → ℕ
count_ones w zero = 0
count_ones w (suc n) = count_ones w n + bit_val (w n)

unfoldable pub popcnt : Word → ℕ
popcnt val = count_ones val 64

unfoldable pub popcntv : Word → ℕ → ℕ
unfolding popcnt
popcntv val ignore =
    if (ignore % 64) == 0 then popcnt val else popcnt (val &w not_word (bitmask_word (ignore % 64)))

-- `(2ULL << pos) - 1` sets the bits 0 to pos, all of them at pos = 63.
unfoldable pub bitrank : Word → ℕ → ℕ
unfolding popcnt
bitrank val pos = popcnt (val &w bitmask_word (pos + 1))

-- The `pdep` instruction: the low bits of the source go, in order, to the places of the set bits of
-- the mask. Bit i of the result is bit `count_ones mask i` of the source if the mask has bit i.
unfoldable pub pdep : Word → Word → Word
pdep source mask i = mask i && source (count_ones mask i)

-- The `tzcnt` instruction: the lowest set bit at a position of from .. from + n - 1; 64 if none.
unfoldable pub first_one : Word → ℕ → ℕ → ℕ
first_one w from zero = 64
first_one w from (suc n) = let rest = first_one w (suc from) n in if w from then from else rest

unfoldable pub tzcnt : Word → ℕ
unfolding first_one
tzcnt w = first_one w 0 64

-- The position of the rank'th 1, by the branch that the Makefile's -D__SSE4_2_ selects. The machine's
-- shift `1ULL << rank` takes the amount modulo 64.
unfoldable pub bitselect : Word → ℕ → ℕ
unfolding tzcnt pdep
bitselect val rank = tzcnt (pdep (one_word (rank % 64)) val)

unfoldable pub bitselectv : Word → ℕ → ℕ → ℕ
unfolding bitselect
bitselectv val ignore rank = bitselect (val &w not_word (bitmask_word (ignore % 64))) rank

-- The amounts of the shifts are taken modulo 64, as the machine does.
unfoldable pub shift_into_b : Word → Word → ℕ → ℕ → ℕ → Word
shift_into_b a b bstart bend amount =
    let a_component : Word = if bstart == 0 then shr_word a ((64 - amount) % 64) else zero_word in
    let b_shifted_mask : Word = shl_word (bitmask_word (bend - bstart)) bstart in
    let b_shifted : Word = shl_word (b_shifted_mask &w b) (amount % 64) &w b_shifted_mask in
    let b_mask : Word = not_word b_shifted_mask in
    a_component &w b_shifted_mask |w b_shifted |w b &w b_mask
