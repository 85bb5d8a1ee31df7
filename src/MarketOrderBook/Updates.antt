-- ===== src/MarketOrderBook/Updates.antt =====
-- trading/strategy/market_order_book.h and market_order_book.cpp: the orders of a level, the best bid
-- and offer, and `onMarketUpdate`.
use yquant_system.Base.{
  ℕ, zero, suc, ◌+◌, ◌%◌, Bool, true, false, Option, none, some, ltb, ◌==◌, if◌then◌else◌, ◌>>=◌,
  assert, update,
}
use yquant_system.Base.Int.{ℤ, pos, leb_ℤ}
use yquant_system.Types.{is_buy, is_sell, max_order_ids, u32_mod}
use yquant_system.Messages.{MarketUpdateType, MarketUpdate}
use yquant_system.MemPool.{MemPool, allocate, deallocate, load, modify}
use yquant_system.MarketOrderBook.{
  MarketOrder, MarketOrdersAtPrice, MarketOrderBook, deref, write, same_pointer, set_prev_order,
  set_next_order, get_orders_at_price, add_orders_at_price, remove_orders_at_price,
}

-- The links of an order that leaves a level with others; the order after it.
unfoldable pub unlink_node : ℕ → MemPool MarketOrder → Option (Option ℕ × MemPool MarketOrder)
unlink_node order p = do
  n ← load order p
  p1 ← write n.prev_order (set_next_order n.next_order) p
  p2 ← write n.next_order (set_prev_order n.prev_order) p1
  p3 ← modify order (λ n. set_prev_order none (set_next_order none n)) p2
  some (n.next_order, p3)

unfoldable pub unlink_order : ℕ → Option ℕ → MarketOrderBook → Option MarketOrderBook
unlink_order order level b = do
  (order_after, p) ← unlink_node order b.order_pool
  l ← deref level b.orders_at_price_pool
  q ←
      if same_pointer l.first_mkt_order (some order)
      then write level (λ l. record l { first_mkt_order = order_after }) b.orders_at_price_pool
      else some b.orders_at_price_pool
  some (record b { order_pool = p; orders_at_price_pool = q })

-- `at` of the table of orders.
abbrev pub set_order : ℕ → Option ℕ → MarketOrderBook → Option MarketOrderBook
set_order id order b =
    assert (ltb id max_order_ids)
      (some (record b { oid_to_order = update b.oid_to_order id order }))

unfoldable pub remove_order : ℕ → MarketOrderBook → Option MarketOrderBook
remove_order order b = do
  n ← load order b.order_pool
  let alone = remove_orders_at_price n.side n.price b
  let among = unlink_order order (get_orders_at_price n.price b) b
  b1 ← if same_pointer n.prev_order (some order) then alone else among
  b2 ← set_order n.order_id none b1
  p ← deallocate order b2.order_pool
  some (record b2 { order_pool = p })

-- An order that opens a level.
unfoldable pub open_level : ℕ → MarketOrder → MarketOrderBook → Option MarketOrderBook
open_level order n b = do
  p ← modify order (λ n. set_prev_order (some order) (set_next_order (some order) n)) b.order_pool
  (level, q) ←
      allocate
        (record {
          side = n.side;
          price = n.price;
          first_mkt_order = some order;
          prev_entry = none;
          next_entry = none;
        })
        b.orders_at_price_pool
  add_orders_at_price level (record b { order_pool = p; orders_at_price_pool = q })

-- An order that goes to the end of the queue of its level, before the first in the circle.
unfoldable pub append_order : ℕ → Option ℕ → MemPool MarketOrder → Option (MemPool MarketOrder)
append_order order first p = do
  f ← deref first p
  p1 ← write f.prev_order (set_next_order (some order)) p
  g ← deref first p1
  p2 ← modify order (λ n. set_next_order first (set_prev_order g.prev_order n)) p1
  write first (set_prev_order (some order)) p2

unfoldable pub queue_order : Option ℕ → ℕ → MarketOrder → MarketOrderBook → Option MarketOrderBook
queue_order none order n b = open_level order n b
queue_order (some level) order n b = do
  l ← load level b.orders_at_price_pool
  p ← append_order order l.first_mkt_order b.order_pool
  some (record b { order_pool = p })

unfoldable pub add_order : ℕ → MarketOrderBook → Option MarketOrderBook
add_order order b = do
  n ← load order b.order_pool
  b1 ← queue_order (get_orders_at_price n.price b) order n b
  set_order n.order_id (some order) b1

-- The loop over the other orders of a level.
unfoldable pub add_quantities : ℕ → MemPool MarketOrder → ℕ → Option ℕ → ℕ → Option ℕ
add_quantities zero p first order qty = none
add_quantities (suc fuel) p first order qty =
    let round = (do
      n ← deref order p
      add_quantities fuel p first n.next_order ((qty + n.qty) % u32_mod)) in
    if same_pointer order (some first) then some qty else round

abbrev pub quantity_from : MemPool MarketOrder → Option ℕ → Option ℕ
quantity_from p none = none
quantity_from p (some first) = do
  n ← load first p
  add_quantities (suc p.next_unused) p first n.next_order n.qty

-- The best price of a side, with the quantity there.
unfoldable pub best_quote :
    MemPool MarketOrdersAtPrice → MemPool MarketOrder → Option ℕ → Option (ℤ × ℕ)
best_quote levels orders none = some (pos 0, 0)
best_quote levels orders (some best) = do
  l ← load best levels
  qty ← quantity_from orders l.first_mkt_order
  some (l.price, qty)

unfoldable pub update_bid : Bool → MarketOrderBook → Option MarketOrderBook
update_bid false b = some b
update_bid true b = do
  (price, qty) ← best_quote b.orders_at_price_pool b.order_pool b.bids_by_price
  some (record b { bbo = record b.bbo { bid_price = price; bid_qty = qty } })

unfoldable pub update_ask : Bool → MarketOrderBook → Option MarketOrderBook
update_ask false b = some b
update_ask true b = do
  (price, qty) ← best_quote b.orders_at_price_pool b.order_pool b.asks_by_price
  some (record b { bbo = record b.bbo { ask_price = price; ask_qty = qty } })

unfoldable pub update_bbo : Bool → Bool → MarketOrderBook → Option MarketOrderBook
update_bbo bid ask b = do b1 ← update_bid bid b; update_ask ask b1

-- Whom the book tells of an update.
pub data Notice : Type 0 where
  silent order_book_update trade_update : Notice

abbrev pub is_clear : MarketUpdateType → Bool
is_clear MarketUpdateType.clear = true
is_clear _ = false

-- No level on the side, or a price at least as aggressive as the best.
abbrev pub reaches : (ℤ → Bool) → Option ℕ → MemPool MarketOrdersAtPrice → Option Bool
reaches test none p = some true
reaches test (some best) p = do l ← load best p; some (test l.price)

-- `bid_updated` and `ask_updated`; a best level is read only for its own side.
unfoldable pub bid_updated : MarketUpdate → MarketOrderBook → Option Bool
bid_updated u b =
    if is_clear u.type
    then some true
    else (if is_buy u.side
        then reaches (λ best. leb_ℤ best u.price) b.bids_by_price b.orders_at_price_pool
        else some false)

unfoldable pub ask_updated : MarketUpdate → MarketOrderBook → Option Bool
ask_updated u b =
    if is_clear u.type
    then some true
    else (if is_sell u.side
        then reaches (λ best. leb_ℤ u.price best) b.asks_by_price b.orders_at_price_pool
        else some false)

-- The loop over the table of orders, from `id` on.
unfoldable pub free_orders :
    ℕ → ℕ → (ℕ → Option ℕ) → MemPool MarketOrder → Option (MemPool MarketOrder)
free_orders zero id table p = some p
free_orders (suc n) id table p = elim (table id) [
  | none ↦ free_orders n (suc id) table p
  | some order ↦ deallocate order p >>= free_orders n (suc id) table
]

-- The loop over the levels of a side after the best one.
unfoldable pub free_next_levels :
    ℕ → ℕ → Option ℕ → MemPool MarketOrdersAtPrice → Option (MemPool MarketOrdersAtPrice)
free_next_levels zero best level p = none
free_next_levels (suc fuel) best level p = elim level [
  | none ↦ none
  | some i ↦
      let round = (do
        n ← load i p
        p1 ← deallocate i p
        free_next_levels fuel best n.next_entry p1) in
      if i == best then some p else round
]

abbrev pub free_levels :
    Option ℕ → MemPool MarketOrdersAtPrice → Option (MemPool MarketOrdersAtPrice)
free_levels none p = some p
free_levels (some best) p = do
  n ← load best p
  p1 ← free_next_levels (suc p.next_unused) best n.next_entry p
  deallocate best p1

unfoldable pub clear_book : MarketOrderBook → Option MarketOrderBook
clear_book b = do
  orders ← free_orders max_order_ids 0 b.oid_to_order b.order_pool
  p ← free_levels b.bids_by_price b.orders_at_price_pool
  levels ← free_levels b.asks_by_price p
  some (record b {
    oid_to_order = λ _. none;
    orders_at_price_pool = levels;
    bids_by_price = none;
    asks_by_price = none;
    price_orders_at_price = λ _. none;
    order_pool = orders;
  })

abbrev pub find_order : ℕ → MarketOrderBook → Option (Option ℕ)
find_order id b = assert (ltb id max_order_ids) (some (b.oid_to_order id))

unfoldable pub add_update : MarketUpdate → MarketOrderBook → Option MarketOrderBook
add_update u b = do
  (order, p) ←
      allocate
        (record {
          order_id = u.order_id;
          side = u.side;
          price = u.price;
          qty = u.quantity;
          priority = u.priority;
          prev_order = none;
          next_order = none;
        })
        b.order_pool
  add_order order (record b { order_pool = p })

unfoldable pub modify_update : MarketUpdate → MarketOrderBook → Option MarketOrderBook
modify_update u b = do
  order ← find_order u.order_id b
  p ← write order (λ n. record n { qty = u.quantity }) b.order_pool
  some (record b { order_pool = p })

abbrev pub remove_found : Option ℕ → MarketOrderBook → Option MarketOrderBook
remove_found none b = none
remove_found (some order) b = remove_order order b

unfoldable pub cancel_update : MarketUpdate → MarketOrderBook → Option MarketOrderBook
cancel_update u b = do order ← find_order u.order_id b; remove_found order b

-- The end of `onMarketUpdate` for the types that change the book.
unfoldable pub publish_change :
    Bool
    → Bool
    → (MarketOrderBook → Option MarketOrderBook)
    → MarketOrderBook
    → Option (MarketOrderBook × Notice)
publish_change bid ask change b = do
  b1 ← change b
  b2 ← update_bbo bid ask b1
  some (b2, order_book_update)

unfoldable pub on_update_of :
    MarketUpdateType
    → MarketUpdate
    → Bool
    → Bool
    → MarketOrderBook
    → Option (MarketOrderBook × Notice)
on_update_of MarketUpdateType.add u bid ask b = publish_change bid ask (add_update u) b
on_update_of MarketUpdateType.modify u bid ask b = publish_change bid ask (modify_update u) b
on_update_of MarketUpdateType.cancel u bid ask b = publish_change bid ask (cancel_update u) b
on_update_of MarketUpdateType.clear u bid ask b = publish_change bid ask clear_book b
on_update_of MarketUpdateType.trade u bid ask b = some (b, trade_update)
on_update_of MarketUpdateType.invalid u bid ask b = some (b, silent)
on_update_of MarketUpdateType.snapshot_start u bid ask b = some (b, silent)
on_update_of MarketUpdateType.snapshot_end u bid ask b = some (b, silent)

unfoldable pub on_market_update : MarketUpdate → MarketOrderBook → Option (MarketOrderBook × Notice)
on_market_update u b = do
  bid ← bid_updated u b
  ask ← ask_updated u b
  on_update_of u.type u bid ask b
