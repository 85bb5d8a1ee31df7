-- ===== src/Bitmap/Scan.antt =====
-- exchange/matcher/price_levels.cc: what the bit counts say of one word.
use yquant_system.Base.{
  ℕ, zero, suc, ◌+◌, ◌-◌, ◌<◌, ◌≤◌, ◌≡◌, inl, inr, true, false, arith, Bool-cases, subst,
  if◌then◌else◌,
}
use yquant_system.Bitmap.{Word, is_zero_below, leading_zeros, trailing_zeros}

pub is_zero_below-clear :
    (n : ℕ) (w : Word) (i : ℕ) → is_zero_below n w ≡ true → i < n → w i ≡ false
unfolding is_zero_below
is_zero_below-clear zero w i h l = absurd (omega arith)
is_zero_below-clear (suc n) w i h l = ground (arith, is_zero_below-clear n w i)

pub is_zero_below_of_set :
    (n : ℕ) (w : Word) (i : ℕ) → i < n → w i ≡ true → is_zero_below n w ≡ false
unfolding is_zero_below
is_zero_below_of_set zero w i l h = absurd (omega arith)
is_zero_below_of_set (suc n) w i l h = ground (arith, is_zero_below_of_set n w i)

-- Of a word that is not zero: its highest set bit.
pub record IsHighest (n : ℕ) (w : Word) (b : ℕ) : Type 0 where
  pub within : b < n
  pub set : w b ≡ true
  pub clear : (i : ℕ) → b < i → i < n → w i ≡ false

IsHighest-step : (n : ℕ) (w : Word) (b : ℕ) → IsHighest n w b → w n ≡ false → IsHighest (suc n) w b
IsHighest-step n w b h f = record {
  within = omega (arith, h.within);
  set = h.set;
  clear = λ i l m. ground (arith, h.clear i l);
}

pub leading_zeros-IsHighest :
    (n : ℕ) (w : Word) → is_zero_below n w ≡ false → IsHighest n w (n - 1 - leading_zeros n w)
unfolding is_zero_below leading_zeros
leading_zeros-IsHighest zero w h = cc
leading_zeros-IsHighest (suc n) w h = elim (Bool-cases (w n)) [
  | inl t ↦
      let e : n ≡ suc n - 1 - (if w n then 0 else suc (leading_zeros n w)) = ground arith in
      subst (IsHighest (suc n) w) e
        (record { within = omega arith; set = t; clear = λ i l m. absurd (omega arith) })
  | inr f ↦
      let e : n - 1 - leading_zeros n w ≡ suc n - 1 - (if w n then 0 else suc (leading_zeros n w)) =
        ground arith in
      subst (IsHighest (suc n) w) e
        (IsHighest-step n w _ (leading_zeros-IsHighest n w (ground arith)) f)
]

-- Of a word that is not zero: its lowest set bit from `first` on.
pub record IsLowest (first n : ℕ) (w : Word) (b : ℕ) : Type 0 where
  pub from : first ≤ b
  pub within : b < first + n
  pub set : w b ≡ true
  pub clear : (i : ℕ) → first ≤ i → i < b → w i ≡ false

trailing_zeros-IsLowest :
    (n first : ℕ) (w : Word) (i : ℕ)
    → first ≤ i
    → i < first + n
    → w i ≡ true
    → IsLowest first n w (first + trailing_zeros n first w)
unfolding trailing_zeros
trailing_zeros-IsLowest zero first w i h l s = absurd (omega arith)
trailing_zeros-IsLowest (suc n) first w i h l s = elim (Bool-cases (w first)) [
  | inl t ↦
      let e : first ≡ first + (if w first then 0 else suc (trailing_zeros n (first + 1) w)) =
        ground arith in
      subst (IsLowest first (suc n) w) e (record {
        from = omega arith;
        within = omega arith;
        set = t;
        clear = λ j a b. absurd (omega arith);
      })
  | inr f ↦
      let ne : first + 1 ≤ i = ground arith in
      let r = trailing_zeros-IsLowest n (first + 1) w i ne (omega arith) s in
      let e : first + 1 + trailing_zeros n (first + 1) w
          ≡ first + (if w first then 0 else suc (trailing_zeros n (first + 1) w)) =
        ground arith in
      subst (IsLowest first (suc n) w) e (record {
        from = omega (arith, r.from);
        within = omega (arith, r.within);
        set = r.set;
        clear = λ j a b. ground (arith, r.clear j);
      })
]

-- A word that is not zero has a set bit.
pub set_bit : (n : ℕ) (w : Word) → is_zero_below n w ≡ false → (b : ℕ) × (b < n) × (w b ≡ true)
set_bit n w h =
    let r = leading_zeros-IsHighest n w h in (n - 1 - leading_zeros n w, r.within, r.set)

pub find-IsLowest :
    (w : Word) → is_zero_below 64 w ≡ false → IsLowest 0 64 w (trailing_zeros 64 0 w)
find-IsLowest w h =
    let (i, l, s) = set_bit 64 w h in
    subst (IsLowest 0 64 w) (omega arith)
      (trailing_zeros-IsLowest 64 0 w i (omega arith) (omega arith) s)
