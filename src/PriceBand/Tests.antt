-- ===== src/PriceBand/Tests.antt =====
-- exchange/matcher/price_levels.h: the theorems on the price band at concrete bands.
use yquant_system.Base.{◌^◌, ◌≡◌, true, arith, refl}
use yquant_system.Base.Int.{pos, ◌-ℤ◌, ◌+ℤ◌, ◌*ℤ◌, ◌≤ℤ◌}
use yquant_system.PriceBand.{PriceBand, div_trunc, to_tick, to_price, is_valid, price_max}
use yquant_system.PriceBand.Grid.{to_tick-to_price}
use yquant_system.PriceBand.Alias.{to_tick_alias}

-- The grid that starts at 1000 and has steps of 5.
abbrev fives : PriceBand
fives = record { base_price = pos 1000; tick_size = pos 5 }

fives-is_valid : is_valid fives ≡ true
unfolding is_valid div_trunc ◌-ℤ◌
fives-is_valid = refl

to_price_7 : to_price fives (pos 7) ≡ pos 1035
unfolding to_price ◌+ℤ◌ ◌*ℤ◌
to_price_7 = refl

to_tick-to_price_example :
    (to_tick fives (to_price fives (pos 7)) ≡ pos 7)
    × (fives.base_price ≤ℤ to_price fives (pos 7))
    × (to_price fives (pos 7) ≤ℤ price_max)
to_tick-to_price_example = to_tick-to_price fives 7 fives-is_valid (omega arith)

from_origin : fives.base_price ≤ℤ pos 1035
from_origin = omega arith

to_tick_alias_example :
    to_tick fives (pos 1035 +ℤ pos (2 ^ 32) *ℤ fives.tick_size) ≡ to_tick fives (pos 1035)
to_tick_alias_example = to_tick_alias fives 1035 fives-is_valid from_origin
