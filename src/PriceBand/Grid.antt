-- ===== src/PriceBand/Grid.antt =====
-- exchange/matcher/price_levels.h: on a valid band the grid and its prices correspond.
use yquant_system.Base.{
  ℕ, suc, ◌+◌, ◌-◌, ◌*◌, ◌/◌, ◌^◌, ◌≤◌, ◌<◌, ◌≡◌, true, arith, refl, ◌∙◌, ap, subst,
}
use yquant_system.Base.Int.{ℤ, pos, negsuc, ◌+ℤ◌, ◌-ℤ◌, ◌*ℤ◌, ◌≤ℤ◌, ◌<ℤ◌}
use native.Mathlib.Nat.{le-div_iff_mul-le, div-eq_of_lt-le}
use yquant_system.Bitmap.{tick_count}
use yquant_system.PriceBand.{PriceBand, div_trunc, to_int32, price_max, to_tick, to_price, is_valid}

-- A band that passes the check, in numbers: its origin, its step, and room above the grid.
pub record Numbers (band : PriceBand) (base step : ℕ) : Type 0 where
  pub origin : band.base_price ≡ pos base
  pub width : band.tick_size ≡ pos step
  pub positive : 0 < step
  pub low : base ≤ 2 ^ 63 - 1
  pub room : tick_count < (2 ^ 63 - 1 - base) / step

pub is_valid-Numbers :
    (base_price tick_size : ℤ)
    → is_valid (record { base_price = base_price; tick_size = tick_size }) ≡ true
    → (base : ℕ) × (step : ℕ) × Numbers
        (record { base_price = base_price; tick_size = tick_size })
        base
        step
unfolding is_valid
is_valid-Numbers (pos b) (pos s) h = (
  b,
  s,
  record {
    origin = refl;
    width = refl;
    positive = ground arith;
    low = ground arith;
    room = ground arith;
  },
)
is_valid-Numbers (pos b) (negsuc s) h = absurd (ground arith)
is_valid-Numbers (negsuc b) (pos s) h = absurd (ground arith)
is_valid-Numbers (negsuc b) (negsuc s) h = absurd (ground arith)

module _ (band : PriceBand) (base step : ℕ) (n : Numbers band base step) where
  -- The price of a tick of the grid.
  pub to_price-eq : (t : ℕ) → to_price band (pos t) ≡ pos (base + t * step)
  unfolding to_price ◌+ℤ◌ ◌*ℤ◌
  to_price-eq t = rw (n.origin, n.width) (ground arith)

  pub top_fits : (t : ℕ) → t < tick_count → base + t * step ≤ 2 ^ 63 - 1
  top_fits t h =
      let k : t * step ≤ 2 ^ 63 - 1 - base =
        (le-div_iff_mul-le n.positive).0 (omega (arith, n.room)) in
      omega (arith, n.low)

  pub to_tick-eq : (a : ℕ) → base ≤ a → to_tick band (pos a) ≡ to_int32 (pos ((a - base) / step))
  unfolding to_tick ◌-ℤ◌ div_trunc
  to_tick-eq a h = rw (n.origin, n.width) (ground arith)

  pub small_int32 : (k : ℕ) → k < 2 ^ 31 → to_int32 (pos k) ≡ pos k
  unfolding to_int32
  small_int32 k h = ground arith

  quotient : (t a : ℕ) → base + t * step ≤ a → a < base + suc t * step → (a - base) / step ≡ t
  quotient t a lo hi = div-eq_of_lt-le step {m = a - base} (omega arith) (omega arith)

-- On a valid band, a price from the price of a tick of the grid up to the next one has that tick:
-- a price between two ticks belongs to the lower one.
pub to_tick_between :
    (band : PriceBand) (t : ℕ) (price : ℕ)
    → is_valid band ≡ true
    → t < tick_count
    → to_price band (pos t) ≤ℤ pos price
    → pos price <ℤ to_price band (pos (suc t))
    → to_tick band (pos price) ≡ pos t
to_tick_between band t price v h lo hi =
    let (b, s, n) = is_valid-Numbers band.base_price band.tick_size v in
    let lo' : b + t * s ≤ price =
      omega (arith, (subst (λ k. k ≤ℤ pos price) (to_price-eq band b s n t) lo)) in
    let hi' : price < b + suc t * s =
      omega (arith, (subst (λ k. pos price <ℤ k) (to_price-eq band b s n (suc t)) hi)) in
    to_tick-eq band b s n price (omega arith)
    ∙ ap (λ k. to_int32 (pos k)) (quotient band b s n t price lo' hi')
    ∙ small_int32 band b s n t (omega arith)

-- On a valid band the price of a tick of the grid maps back to that tick, and lies between the
-- origin and the greatest price that an int64_t holds.
pub to_tick-to_price :
    (band : PriceBand) (t : ℕ)
    → is_valid band ≡ true
    → t < tick_count
    → (to_tick band (to_price band (pos t)) ≡ pos t)
      × (band.base_price ≤ℤ to_price band (pos t))
      × (to_price band (pos t) ≤ℤ price_max)
to_tick-to_price band t v h =
    let (b, s, n) = is_valid-Numbers band.base_price band.tick_size v in
    let e = to_price-eq band b s n t in
    let k = n.positive in
    (
      ap (to_tick band) e
          ∙ to_tick-eq band b s n (b + t * s) (omega arith)
          ∙ ap (λ k. to_int32 (pos k))
              (quotient band b s n t (b + t * s) (omega arith) (omega arith))
          ∙ small_int32 band b s n t (omega arith),
      rw (e, n.origin) (omega arith),
      rw e (omega (arith, top_fits band b s n t h)),
    )
