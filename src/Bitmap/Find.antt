-- ===== src/Bitmap/Find.antt =====
-- exchange/matcher/price_levels.cc: FindBestTick finds the best tick whose bit is set.
use yquant_system.Base.{
  ℕ, zero, suc, ◌+◌, ◌*◌, ◌/◌, ◌%◌, ◌<◌, ◌≤◌, ◌≡◌, Bool, true, false, not, arith, refl, sym,
  Bool-cases, inl, inr, Option, none, some, subst,
}
use native.Mathlib.Decide.{dec_lt}
use mathlib.Core.Path.{subst₂}
use yquant_system.Types.{Side, buy, sell, no_side}
use yquant_system.Bitmap.{
  Bitmap, occupied, word_is_zero, tick_count, find_highest, find_lowest, find_best_tick,
}
use yquant_system.Bitmap.Scan.{
  is_zero_below-clear, leading_zeros-IsHighest, find-IsLowest, IsHighest, IsLowest,
}
use yquant_system.Bitmap.Marks.{IsSummarised}

-- The highest, or the lowest, tick of a range at which the test holds; none if there is none.
abbrev pub IsTop : ℕ → (ℕ → Bool) → Option ℕ → Type 0
IsTop k occ none = (t : ℕ) → t < k → occ t ≡ false
IsTop k occ (some b) = (b < k) × (occ b ≡ true) × ((t : ℕ) → b < t → t < k → occ t ≡ false)

abbrev pub IsBottom : ℕ → ℕ → (ℕ → Bool) → Option ℕ → Type 0
IsBottom from k occ none = (t : ℕ) → from ≤ t → t < k → occ t ≡ false
IsBottom from k occ (some b) =
    (from ≤ b) × (b < k) × (occ b ≡ true) × ((t : ℕ) → from ≤ t → t < b → occ t ≡ false)

module _ (m : Bitmap) (s : IsSummarised m) where
  -- A clear summary bit leaves the 64 ticks of its word clear.
  clear_word : (t : ℕ) → m.summary (t / 64 / 64) (t / 64 % 64) ≡ false → occupied m t ≡ false
  clear_word t h =
      let z : word_is_zero (m.occupancy (t / 64)) ≡ true = ground (arith, s (t / 64)) in
      is_zero_below-clear 64 (m.occupancy (t / 64)) (t % 64) z (omega arith)

  at_bit : (t w b : ℕ) {v : Bool} → t / 64 ≡ w → t % 64 ≡ b → m.occupancy w b ≡ v → occupied m t ≡ v
  at_bit t w b {v} e f h = subst₂ (λ k i. m.occupancy k i ≡ v) (sym e) (sym f) h

  in_word : (t w : ℕ) → t / 64 ≡ w → m.occupancy w (t % 64) ≡ false → occupied m t ≡ false
  in_word t w e h = at_bit t w (t % 64) e refl h

  clear_summary :
      (n t : ℕ) → word_is_zero (m.summary n) ≡ true → t / 64 / 64 ≡ n → occupied m t ≡ false
  clear_summary n t z e = clear_word t (
      subst (λ k. m.summary k (t / 64 % 64) ≡ false) (omega arith)
        (is_zero_below-clear 64 (m.summary n) (t / 64 % 64) z (omega arith)))

  word_nonzero :
      (n b : ℕ) → b < 64 → m.summary n b ≡ true → word_is_zero (m.occupancy (n * 64 + b)) ≡ false
  word_nonzero n b l h =
      let e : (n * 64 + b) / 64 ≡ n = omega arith in
      let f : (n * 64 + b) % 64 ≡ b = omega arith in
      let g = s (n * 64 + b) in
      let g' : m.summary n b ≡ not (word_is_zero (m.occupancy (n * 64 + b))) = rw (e, f) at g in
      ground (arith, g')

  -- The highest bit of the highest word that is not zero is the highest tick.
  highest_in :
      (n hb bit : ℕ)
      → IsHighest 64 (m.summary n) hb
      → IsHighest 64 (m.occupancy (n * 64 + hb)) bit
      → IsTop (suc n * 4096) (occupied m) (some ((n * 64 + hb) * 64 + bit))
  highest_in n hb bit h k =
      let e : ((n * 64 + hb) * 64 + bit) / 64 ≡ n * 64 + hb = omega (arith, k.within) in
      let f : ((n * 64 + hb) * 64 + bit) % 64 ≡ bit = omega (arith, k.within) in
      (omega (arith, h.within, k.within), at_bit _ _ _ e f k.set, above)
    where
      above : (t : ℕ) → (n * 64 + hb) * 64 + bit < t → t < suc n * 4096 → occupied m t ≡ false
      above t l u = elim (dec_lt (n * 64 + hb) (t / 64)) [
        | yes p ↦
            let e1 : t / 64 / 64 ≡ n = omega (arith, h.within) in
            clear_word t (rw e1 (h.clear (t / 64 % 64) (omega (arith, h.within)) (omega arith)))
        | no p ↦
            let e1 : t / 64 ≡ n * 64 + hb = omega (arith, k.within) in
            in_word t (n * 64 + hb) e1 (k.clear (t % 64) (omega (arith, k.within)) (omega arith))
      ]

  widen_up :
      (n : ℕ) (r : Option ℕ)
      → word_is_zero (m.summary n) ≡ true
      → IsTop (n * 4096) (occupied m) r
      → IsTop (suc n * 4096) (occupied m) r
  widen_up n none z v =
      λ t l. elim (dec_lt t (n * 4096)) [ yes p ↦ v t p | no p ↦ clear_summary n t z (omega arith) ]
  widen_up n (some b) z v = (
    omega arith,
    v.1,
    λ t l u. elim (dec_lt t (n * 4096)) [
      | yes p ↦ v.2 t l p
      | no p ↦ clear_summary n t z (omega arith)
    ],
  )

  find_highest-IsTop : (n : ℕ) → IsTop (n * 4096) (occupied m) (find_highest n m)
  unfolding find_highest
  find_highest-IsTop zero = λ t l. absurd (omega arith)
  find_highest-IsTop (suc n) = elim (Bool-cases (word_is_zero (m.summary n))) [
    | inl z ↦ rw z (widen_up n (find_highest n m) z (find_highest-IsTop n))
    | inr z ↦
        let h = leading_zeros-IsHighest 64 (m.summary n) z in
        let k = leading_zeros-IsHighest 64 (m.occupancy _) (word_nonzero n _ h.within h.set) in
        rw z (highest_in n _ _ h k)
  ]

  -- The lowest bit of the lowest word that is not zero is the lowest tick.
  lowest_in :
      (n k lb bit : ℕ)
      → IsLowest 0 64 (m.summary n) lb
      → IsLowest 0 64 (m.occupancy (n * 64 + lb)) bit
      → suc n ≤ k
      → IsBottom (n * 4096) (k * 4096) (occupied m) (some ((n * 64 + lb) * 64 + bit))
  lowest_in n k lb bit h b le =
      let e : ((n * 64 + lb) * 64 + bit) / 64 ≡ n * 64 + lb = omega (arith, b.within) in
      let f : ((n * 64 + lb) * 64 + bit) % 64 ≡ bit = omega (arith, b.within) in
      (omega arith, omega (arith, h.within, b.within), at_bit _ _ _ e f b.set, under)
    where
      under : (t : ℕ) → n * 4096 ≤ t → t < (n * 64 + lb) * 64 + bit → occupied m t ≡ false
      under t l u = elim (dec_lt (t / 64) (n * 64 + lb)) [
        | yes p ↦
            let e1 : t / 64 / 64 ≡ n = omega (arith, h.within) in
            clear_word t (rw e1 (h.clear (t / 64 % 64) (omega arith) (omega (arith, h.within))))
        | no p ↦
            let e1 : t / 64 ≡ n * 64 + lb = omega (arith, b.within) in
            in_word t (n * 64 + lb) e1 (b.clear (t % 64) (omega arith) (omega (arith, b.within)))
      ]

  widen_down :
      (n k : ℕ) (r : Option ℕ)
      → word_is_zero (m.summary n) ≡ true
      → IsBottom ((n + 1) * 4096) (k * 4096) (occupied m) r
      → IsBottom (n * 4096) (k * 4096) (occupied m) r
  widen_down n k none z v = λ t l u. elim (dec_lt t ((n + 1) * 4096)) [
    | yes p ↦ clear_summary n t z (omega arith)
    | no p ↦ v t (omega arith) u
  ]
  widen_down n k (some b) z v = (
    omega arith,
    v.1,
    v.2,
    λ t l u. elim (dec_lt t ((n + 1) * 4096)) [
      | yes p ↦ clear_summary n t z (omega arith)
      | no p ↦ v.3 t (omega arith) u
    ],
  )

  find_lowest-IsBottom :
      (c n k : ℕ) → n + c ≡ k → IsBottom (n * 4096) (k * 4096) (occupied m) (find_lowest c n m)
  unfolding find_lowest
  find_lowest-IsBottom zero n k e = λ t l u. absurd (omega arith)
  find_lowest-IsBottom (suc c) n k e = elim (Bool-cases (word_is_zero (m.summary n))) [
    | inl z ↦ rw z (
        widen_down n k (find_lowest c (n + 1) m) z (find_lowest-IsBottom c (n + 1) k (omega arith)))
    | inr z ↦
        let h = find-IsLowest (m.summary n) z in
        let b = find-IsLowest (m.occupancy _) (word_nonzero n _ h.within h.set) in
        rw z (lowest_in n k _ _ h b (omega arith))
  ]

-- `find_best_tick` answers for the ticks of the grid.
abbrev pub IsBest : Side → (ℕ → Bool) → Option ℕ → Type 0
IsBest buy occ r = IsTop tick_count occ r
IsBest sell occ r = IsBottom 0 tick_count occ r
IsBest no_side occ r = IsBottom 0 tick_count occ r

-- With the summary in step with the words, the scan of two words finds the best occupied tick of
-- the whole grid: for BUY the highest, for SELL the lowest, and none when every tick is clear.
pub find_best_tick-IsBest :
    (side : Side) (m : Bitmap) → IsSummarised m → IsBest side (occupied m) (find_best_tick side m)
unfolding find_best_tick
find_best_tick-IsBest buy m s = find_highest-IsTop m s 4
find_best_tick-IsBest sell m s = find_lowest-IsBottom m s 4 0 4 refl
find_best_tick-IsBest no_side m s = find_lowest-IsBottom m s 4 0 4 refl
