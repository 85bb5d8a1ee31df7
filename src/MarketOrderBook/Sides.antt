-- ===== src/MarketOrderBook/Sides.antt =====
-- trading/strategy/market_order_book.h: a side after the field of its best level was written.
use yquant_system.Base.{ℕ, ◌≡◌, Option, none, List, refl, AllDistinct}
use yquant_system.Types.{Side, buy, sell, no_side}
use yquant_system.MemPool.Inv.{IsValid}
use yquant_system.MarketOrderBook.{MarketOrderBook, set_best}
use yquant_system.MarketOrderBook.Links.{ptrs, first_or, Ring}
use yquant_system.MarketOrderBook.Levels.{on_side}
use yquant_system.MarketOrderBook.Order.{IsSorted}
use yquant_system.MarketOrderBook.Orders.{in_level}
use yquant_system.MarketOrderBook.Queues.{PriceQueue, levels_of, orders_of, AllQueues, SideInv}

-- A side from its parts, where the best level is the first.
pub SideInv-set_best :
    (side : Side) (b : MarketOrderBook) (qs : List PriceQueue)
    → IsValid b.orders_at_price_pool
    → IsValid b.order_pool
    → Ring (on_side side) b.orders_at_price_pool.slot (levels_of qs)
    → IsSorted side (levels_of qs)
    → AllDistinct (ptrs (on_side side) (levels_of qs))
    → AllDistinct (ptrs in_level (orders_of qs))
    → AllQueues side b.order_pool.slot b.price_orders_at_price b.oid_to_order qs
    → SideInv side (set_best side (first_or (on_side side) none (levels_of qs)) b) qs
SideInv-set_best buy b qs v w r s d e a = record {
  levels_valid = v;
  orders_valid = w;
  ring = r;
  best = refl;
  sorted = s;
  distinct_levels = d;
  distinct_orders = e;
  queues = a;
}
SideInv-set_best sell b qs v w r s d e a = record {
  levels_valid = v;
  orders_valid = w;
  ring = r;
  best = refl;
  sorted = s;
  distinct_levels = d;
  distinct_orders = e;
  queues = a;
}
SideInv-set_best no_side b qs v w r s d e a = record {
  levels_valid = v;
  orders_valid = w;
  ring = r;
  best = refl;
  sorted = s;
  distinct_levels = d;
  distinct_orders = e;
  queues = a;
}

pub bbo-set_best :
    (side : Side) (q : Option ℕ) (b : MarketOrderBook) → (set_best side q b).bbo ≡ b.bbo
bbo-set_best buy q b = refl
bbo-set_best sell q b = refl
bbo-set_best no_side q b = refl
