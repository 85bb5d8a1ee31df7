-- ===== src/PriceBand/Alias.antt =====
-- exchange/matcher/price_levels.h: a price outside the band need not get a tick outside the grid.
use native.Mathlib.Nat.{add-mul-div_right}
use yquant_system.Base.{ℕ, ◌+◌, ◌-◌, ◌*◌, ◌/◌, ◌^◌, ◌≤◌, ◌≡◌, true, arith, ◌∙◌, ap, sym, subst}
use yquant_system.Base.Int.{pos, ◌+ℤ◌, ◌*ℤ◌, ◌≤ℤ◌}
use yquant_system.PriceBand.{PriceBand, to_int32, to_tick, is_valid}
use yquant_system.PriceBand.Grid.{is_valid-Numbers, to_tick-eq}

residue32_shift : (k : ℕ) → to_int32 (pos (k + 2 ^ 32)) ≡ to_int32 (pos k)
unfolding to_int32
residue32_shift k = ground arith

-- On a valid band, a price from the origin on and the price 2^32 steps above it have the same
-- tick, since the quotient is narrowed to 32 bits.
pub to_tick_alias :
    (band : PriceBand) (price : ℕ)
    → is_valid band ≡ true
    → band.base_price ≤ℤ pos price
    → to_tick band (pos price +ℤ pos (2 ^ 32) *ℤ band.tick_size) ≡ to_tick band (pos price)
unfolding ◌+ℤ◌ ◌*ℤ◌
to_tick_alias band price v h =
    let (b, s, n) = is_valid-Numbers band.base_price band.tick_size v in
    let g : pos b ≤ℤ pos price = subst (λ k. k ≤ℤ pos price) n.origin h in
    let h' : b ≤ price = omega (arith, g) in
    let up : pos price +ℤ pos (2 ^ 32) *ℤ band.tick_size ≡ pos (price + 2 ^ 32 * s) =
      rw n.width (shifted price s) in
    let q : (price + 2 ^ 32 * s - b) / s ≡ (price - b) / s + 2 ^ 32 =
      ap (λ k. k / s) (omega arith) ∙ add-mul-div_right (price - b) (2 ^ 32) n.positive in
    ap (to_tick band) up
    ∙ to_tick-eq band b s n (price + 2 ^ 32 * s) (omega arith)
    ∙ ap (λ k. to_int32 (pos k)) q
    ∙ residue32_shift ((price - b) / s)
    ∙ sym (to_tick-eq band b s n price h')
  where
    shifted : (a s : ℕ) → pos a +ℤ pos (2 ^ 32) *ℤ pos s ≡ pos (a + 2 ^ 32 * s)
    shifted a s = ground arith
