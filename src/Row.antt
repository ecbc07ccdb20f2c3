-- ===== src/Row.antt =====
-- A long row of bits in 64-bit words: the occupieds, runends, extensions and remainders of the
-- blocks of src/gqf.c, each read across the blocks (METADATA_WORD, REMAINDER_WORD).
pub mod Shift
pub mod Fields
use ski_rental_adaptive_qf.Prelude.{
  ℕ, zero, suc, ◌+◌, ◌-◌, ◌*◌, ◌/◌, ◌%◌, Bool, ◌||◌, ltb, ◌==◌, if◌then◌else◌,
}
use ski_rental_adaptive_qf.Word.{Word, zero_word, shift_into_b, bit_val}

-- Bit i of word b of a row is bit 64 b + i of the row.
abbrev pub Row : Type 0
Row = ℕ → Bool

abbrev pub word : Row → ℕ → Word
word row b i = row (64 * b + i)

abbrev pub set_word : Row → ℕ → Word → Row
set_word row b w i = if (i / 64) == b then w (i % 64) else row i

-- The loop of shift_remainders and of shift_runends: words above the first are shifted from the
-- last one down, each taking the top bits of the word below it; `n` words are still to do.
unfoldable pub shift_words : ℕ → Row → ℕ → ℕ → ℕ → ℕ → Row
shift_words zero row first_word bstart bend amount =
    set_word row first_word (shift_into_b zero_word (word row first_word) bstart bend amount)
shift_words (suc n) row first_word bstart bend amount =
    let last_word : ℕ = first_word + suc n in
    let row' : Row =
      set_word row last_word
        (shift_into_b (word row (last_word - 1)) (word row last_word) 0 bend amount) in
    shift_words n row' first_word bstart 64 amount

-- Moves the bits from `first` up to `end` by `amount` places.
unfoldable pub shift_row : Row → ℕ → ℕ → ℕ → Row
unfolding shift_words
shift_row row first end amount =
    shift_words (end / 64 - first / 64) row (first / 64) (first % 64) (end % 64) amount

-- Bit k of a number.
unfoldable pub bit : ℕ → ℕ → Bool
bit v zero = (v % 2) == 1
bit v (suc k) = bit (v / 2) k

-- The number that the n bits from `at` on spell, the lowest bit first.
unfoldable pub field : Row → ℕ → ℕ → ℕ
field row start zero = 0
field row start (suc n) = bit_val (row start) + 2 * field row (suc start) n

-- The n bits from `start` on become those of v. The bits of v beyond the n lowest are or-ed in up to
-- `stop`, as nothing masks v.
unfoldable pub set_field : Row → ℕ → ℕ → ℕ → ℕ → Row
unfolding bit
set_field row start n stop v i =
    if ltb i start
    then row i
    else if ltb i (start + n)
    then bit v (i - start)
    else if ltb i stop
    then row i || bit v (i - start)
    else row i
