-- ===== src/Bitmap.antt =====
-- exchange/matcher/price_levels.h and price_levels.cc: the occupancy bitmap of one side.
--
-- A `uint64_t` that is used as a set of bits is the function from a bit's position to its value,
-- read at positions below 64; `|`, `&` and `~` act on each bit.
pub mod Scan
pub mod Find
pub mod Marks
pub mod Tests
use yquant_system.Base.{
  ℕ, zero, suc, ◌+◌, ◌-◌, ◌*◌, ◌/◌, ◌%◌, Bool, true, false, not, ◌||◌, ◌&&◌, Option, none, some,
  ◌==◌, if◌then◌else◌, update,
}
use yquant_system.Types.{Side, buy, sell, no_side, max_price_levels, is_buy}

abbrev pub Word : Type 0
Word = ℕ → Bool

abbrev pub bits_per_word : ℕ
bits_per_word = 64

-- `kTickCount`, `kOccupancyWords` and `kSummaryWords`.
abbrev pub tick_count : ℕ
tick_count = max_price_levels

abbrev pub occupancy_words : ℕ
occupancy_words = tick_count / bits_per_word

abbrev pub summary_words : ℕ
summary_words = (occupancy_words + bits_per_word - 1) / bits_per_word

-- `uint64_t{1} << b` for b < 64.
abbrev pub one_shl : ℕ → Word
one_shl b i = i == b

abbrev pub word_or : Word → Word → Word
word_or v w i = v i || w i

abbrev pub word_and : Word → Word → Word
word_and v w i = v i && w i

abbrev pub word_not : Word → Word
word_not w i = not (w i)

-- `w == 0`: the lowest n bits are clear.
unfoldable pub is_zero_below : ℕ → Word → Bool
is_zero_below zero w = true
is_zero_below (suc n) w = not (w n) && is_zero_below n w

-- `std::countl_zero`: the clear bits above the highest set one.
unfoldable pub leading_zeros : ℕ → Word → ℕ
leading_zeros zero w = 0
leading_zeros (suc n) w = if w n then 0 else suc (leading_zeros n w)

-- `std::countr_zero`, from bit i on.
unfoldable pub trailing_zeros : ℕ → ℕ → Word → ℕ
trailing_zeros zero i w = 0
trailing_zeros (suc n) i w = if w i then 0 else suc (trailing_zeros n (i + 1) w)

abbrev pub countl_zero : Word → ℕ
countl_zero w = leading_zeros bits_per_word w

abbrev pub countr_zero : Word → ℕ
countr_zero w = trailing_zeros bits_per_word 0 w

abbrev pub word_is_zero : Word → Bool
word_is_zero w = is_zero_below bits_per_word w

pub record Bitmap : Type 0 where
  pub summary : ℕ → Word
  pub occupancy : ℕ → Word

abbrev pub empty : Bitmap
empty = record { summary = λ _ _. false; occupancy = λ _ _. false }

pub mark_occupied : Bitmap → ℕ → Bitmap
mark_occupied m index =
    let word = index / bits_per_word in
    record {
      occupancy =
          update m.occupancy word (word_or (m.occupancy word) (one_shl (index % bits_per_word)));
      summary =
          update m.summary (word / bits_per_word)
            (word_or (m.summary (word / bits_per_word)) (one_shl (word % bits_per_word)));
    }

pub clear_occupied : Bitmap → ℕ → Bitmap
clear_occupied m index =
    let word = index / bits_per_word in
    let cleared = word_and (m.occupancy word) (word_not (one_shl (index % bits_per_word))) in
    record {
      occupancy = update m.occupancy word cleared;
      summary =
          if word_is_zero cleared
          then update m.summary (word / bits_per_word) (
              word_and (m.summary (word / bits_per_word))
                (word_not (one_shl (word % bits_per_word))))
          else m.summary;
    }

-- `for (summary_word = n; summary_word-- > 0;)`
find_highest : ℕ → Bitmap → Option ℕ
find_highest zero m = none
find_highest (suc summary_word) m =
    let rest = find_highest summary_word m in
    let summary = m.summary summary_word in
    let word = summary_word * bits_per_word + (bits_per_word - 1 - countl_zero summary) in
    let bit = bits_per_word - 1 - countl_zero (m.occupancy word) in
    if word_is_zero summary then rest else some (word * bits_per_word + bit)

-- `for (summary_word = k; summary_word < k + n; ++summary_word)`
find_lowest : ℕ → ℕ → Bitmap → Option ℕ
find_lowest zero summary_word m = none
find_lowest (suc n) summary_word m =
    let rest = find_lowest n (summary_word + 1) m in
    let summary = m.summary summary_word in
    let word = summary_word * bits_per_word + countr_zero summary in
    let bit = countr_zero (m.occupancy word) in
    if word_is_zero summary then rest else some (word * bits_per_word + bit)

-- `none` is `kInvalidTick`.
pub find_best_tick : Side → Bitmap → Option ℕ
find_best_tick side m =
    if is_buy side then find_highest summary_words m else find_lowest summary_words 0 m

-- Whether the tick's bit is set.
abbrev pub occupied : Bitmap → ℕ → Bool
occupied m tick = m.occupancy (tick / bits_per_word) (tick % bits_per_word)
