-- ===== src/Bitmap/Tests.antt =====
-- exchange/matcher/price_levels.cc: the theorems on the occupancy bitmap at concrete bitmaps.
use yquant_system.Base.{ℕ, ◌≡◌, some, refl, ◌||◌, ◌&&◌, not, ◌==◌}
use yquant_system.Types.{buy, sell}
use yquant_system.Bitmap.{
  Bitmap, empty, mark_occupied, clear_occupied, find_best_tick, find_highest, find_lowest, occupied,
  is_zero_below, leading_zeros, trailing_zeros,
}
use yquant_system.Bitmap.Marks.{
  IsSummarised, empty-IsSummarised, mark_occupied-IsSummarised, marks_one_tick,
}
use yquant_system.Bitmap.Find.{IsBest, find_best_tick-IsBest}

-- Ticks 70 and 5000 are occupied.
abbrev two_ticks : Bitmap
two_ticks = mark_occupied (mark_occupied empty 70) 5000

two_ticks-IsSummarised : IsSummarised two_ticks
two_ticks-IsSummarised =
    mark_occupied-IsSummarised (mark_occupied empty 70) 5000
      (mark_occupied-IsSummarised empty 70 empty-IsSummarised)

best_of_two : (find_best_tick buy two_ticks ≡ some 5000) × (find_best_tick sell two_ticks ≡ some 70)
unfolding mark_occupied find_best_tick find_highest find_lowest is_zero_below leading_zeros
    trailing_zeros
best_of_two = (refl, refl)

find_best_tick-IsBest_example : IsBest sell (occupied two_ticks) (find_best_tick sell two_ticks)
find_best_tick-IsBest_example = find_best_tick-IsBest sell two_ticks two_ticks-IsSummarised

marks_one_tick_example :
    ((t : ℕ) → occupied (mark_occupied two_ticks 70) t ≡ (occupied two_ticks t || (t == 70)))
    × IsSummarised (mark_occupied two_ticks 70)
    × ((t : ℕ) → occupied (clear_occupied two_ticks 70) t ≡ (occupied two_ticks t && not (t == 70)))
    × IsSummarised (clear_occupied two_ticks 70)
marks_one_tick_example = marks_one_tick two_ticks 70 two_ticks-IsSummarised
