-- ===== src/MarketOrderBook/Cleared.antt =====
-- trading/strategy/market_order_book.h: what `removeOrder` leaves of an order, and of a level that lost
-- its last order.
use yquant_system.Base.{ℕ, ◌≡◌, ◌≢◌, false, Option, none, some, List, nonempty, if◌then◌else◌}
use yquant_system.Types.{Side, buy, sell, no_side}
use yquant_system.MemPool.{object_at}
use yquant_system.MarketOrderBook.{MarketOrderBook, set_best, price_to_index}
use yquant_system.MarketOrderBook.Levels.{Level}
use yquant_system.MarketOrderBook.Orders.{Item}

-- No entry of the table of orders leads to the order, and its slot is free; `rest` is what stays of
-- its queue, and for an empty one the level has no entry of the table of prices and no slot either.
-- All other entries are as before.
abbrev pub Cleared : MarketOrderBook → Level → Item → List Item → MarketOrderBook → Type 0
Cleared b l z rest b' =
    (b'.oid_to_order z.order_id ≡ none)
    × ((id : ℕ) → id ≢ z.order_id → b'.oid_to_order id ≡ b.oid_to_order id)
    × (b'.price_orders_at_price (price_to_index l.price)
        ≡ (if nonempty rest then some l.ptr else none))
    × ((i : ℕ)
        → i ≢ price_to_index l.price
        → b'.price_orders_at_price i ≡ b.price_orders_at_price i)
    × (object_at (b'.order_pool.slot z.ptr) ≡ none)
    × (nonempty rest ≡ false → object_at (b'.orders_at_price_pool.slot l.ptr) ≡ none)

pub Cleared-set_best :
    (side : Side) (best : Option ℕ) (b : MarketOrderBook) (l : Level) (z : Item) (rest : List Item)
    (b' : MarketOrderBook)
    → Cleared b l z rest b'
    → Cleared b l z rest (set_best side best b')
Cleared-set_best buy best b l z rest b' h = h
Cleared-set_best sell best b l z rest b' h = h
Cleared-set_best no_side best b l z rest b' h = h
