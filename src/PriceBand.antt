-- ===== src/PriceBand.antt =====
-- exchange/matcher/price_levels.h: `PriceBand`, between prices and positions on the tick grid.
--
-- A price is an integer: the differences and products of `int64_t` are taken exactly, so the model
-- is the code where no such operation overflows. The narrowing to the `int32_t` of a tick is kept.
pub mod Grid
pub mod Alias
pub mod Tests
use yquant_system.Base.{
  ℕ, suc, ◌+◌, ◌-◌, ◌*◌, ◌/◌, ◌%◌, ◌^◌, Bool, true, false, ◌&&◌, ltb, if◌then◌else◌,
}
use yquant_system.Base.Int.{
  ℤ, pos, negsuc, pos_part, neg_part, sub_ℕ, ◌+ℤ◌, ◌-ℤ◌, ◌*ℤ◌, leb_ℤ, ltb_ℤ,
}
use yquant_system.Bitmap.{tick_count}

pub record PriceBand : Type 0 where
  pub base_price : ℤ
  pub tick_size : ℤ

-- The quotient of C++, rounded towards zero. A divisor of 0 has no quotient in the source.
unfoldable pub div_trunc : ℤ → ℤ → ℤ
div_trunc (pos a) (pos b) = pos (a / b)
div_trunc (pos a) (negsuc b) = sub_ℕ 0 (a / suc b)
div_trunc (negsuc a) (pos b) = sub_ℕ 0 (suc a / b)
div_trunc (negsuc a) (negsuc b) = pos (suc a / suc b)

-- The residue of an integer modulo 2^32.
unfoldable pub residue32 : ℤ → ℕ
residue32 (pos n) = n % 2 ^ 32
residue32 (negsuc n) = 2 ^ 32 - 1 - n % 2 ^ 32

-- `static_cast<int32_t>`: the value of that width with the same residue.
unfoldable pub to_int32 : ℤ → ℤ
unfolding residue32
to_int32 z =
    if ltb (residue32 z) (2 ^ 31) then pos (residue32 z) else negsuc (2 ^ 32 - 1 - residue32 z)

-- `std::numeric_limits<int64_t>::max()`
abbrev pub price_max : ℤ
price_max = pos (2 ^ 63 - 1)

unfoldable pub to_tick : PriceBand → ℤ → ℤ
to_tick band price = to_int32 (div_trunc (price -ℤ band.base_price) band.tick_size)

unfoldable pub to_price : PriceBand → ℤ → ℤ
to_price band tick = band.base_price +ℤ tick *ℤ band.tick_size

unfoldable pub is_valid : PriceBand → Bool
unfolding div_trunc ◌-ℤ◌
is_valid band =
    ltb_ℤ (pos 0) band.tick_size
    && leb_ℤ (pos 0) band.base_price
    && ltb_ℤ (pos tick_count) (div_trunc (price_max -ℤ band.base_price) band.tick_size)

-- `kDefaultPriceBand`
abbrev pub default_band : PriceBand
default_band = record { base_price = pos 0; tick_size = pos 1 }
