-- ===== src/Bitmap/Marks.antt =====
-- exchange/matcher/price_levels.cc: MarkOccupied and ClearOccupied change one tick, and keep the
-- summary bits in step with the words.
use yquant_system.Base.{ℕ, ◌/◌, ◌%◌, ◌≡◌, true, false, not, ◌||◌, ◌&&◌, arith, refl, ◌==◌}
use yquant_system.Bitmap.{
  Word, Bitmap, empty, occupied, mark_occupied, clear_occupied, is_zero_below, word_is_zero,
  word_or, word_and, word_not, one_shl,
}
use yquant_system.Bitmap.Scan.{is_zero_below_of_set, set_bit}

-- Each summary bit says whether its word has a bit set.
abbrev pub IsSummarised : Bitmap → Type 0
IsSummarised m =
    (word : ℕ) → m.summary (word / 64) (word % 64) ≡ not (word_is_zero (m.occupancy word))

zero_is_zero : (n : ℕ) → is_zero_below n (λ _. false) ≡ true
unfolding is_zero_below
zero_is_zero ℕ.zero = refl
zero_is_zero (ℕ.suc n) = zero_is_zero n

pub empty-IsSummarised : IsSummarised empty
empty-IsSummarised word = ground (arith, zero_is_zero 64)

pub occupied-mark_occupied :
    (m : Bitmap) (i t : ℕ) → occupied (mark_occupied m i) t ≡ (occupied m t || (t == i))
unfolding mark_occupied
occupied-mark_occupied m i t = ground arith

pub occupied-clear_occupied :
    (m : Bitmap) (i t : ℕ) → occupied (clear_occupied m i) t ≡ (occupied m t && not (t == i))
unfolding clear_occupied
occupied-clear_occupied m i t = ground arith

pub mark_occupied-IsSummarised :
    (m : Bitmap) (i : ℕ) → IsSummarised m → IsSummarised (mark_occupied m i)
unfolding mark_occupied
mark_occupied-IsSummarised m i s word =
    let w : Word = word_or (m.occupancy (i / 64)) (one_shl (i % 64)) in
    let set : w (i % 64) ≡ true = ground arith in
    ground (arith, s word, is_zero_below_of_set 64 w (i % 64) (omega arith) set)

-- A word with one bit cleared has no bit that the word had not.
cleared_nonzero :
    (w : Word) (b : ℕ)
    → word_is_zero (word_and w (word_not (one_shl b))) ≡ false
    → word_is_zero w ≡ false
cleared_nonzero w b h =
    let (i, l, s) = set_bit 64 (word_and w (word_not (one_shl b))) h in
    is_zero_below_of_set 64 w i l (ground arith)

pub clear_occupied-IsSummarised :
    (m : Bitmap) (i : ℕ) → IsSummarised m → IsSummarised (clear_occupied m i)
unfolding clear_occupied
clear_occupied-IsSummarised m i s word =
    ground (arith, s word, s (i / 64), cleared_nonzero (m.occupancy (i / 64)) (i % 64))

-- MarkOccupied sets the bit of its tick and of no other, and ClearOccupied clears the bit of its
-- tick and of no other; both keep each summary bit equal to whether its word has a bit set.
pub marks_one_tick :
    (m : Bitmap) (i : ℕ)
    → IsSummarised m
    → ((t : ℕ) → occupied (mark_occupied m i) t ≡ (occupied m t || (t == i)))
      × IsSummarised (mark_occupied m i)
      × ((t : ℕ) → occupied (clear_occupied m i) t ≡ (occupied m t && not (t == i)))
      × IsSummarised (clear_occupied m i)
marks_one_tick m i s = (
  occupied-mark_occupied m i,
  mark_occupied-IsSummarised m i s,
  occupied-clear_occupied m i,
  clear_occupied-IsSummarised m i s,
)
