-- ===== src/MarketOrderBook.antt =====
-- trading/strategy/market_order.h, market_order_book.h and market_order_book.cpp: the trading
-- client's copy of the order book of one symbol.
--
-- A `MarketOrder*` is the slot of the order in the order pool, a `MarketOrdersAtPrice*` the slot of
-- the level in the pool of levels; a null pointer is `none`. Orders of a level, and the levels of a
-- side, are circular doubly linked lists. `none` is a run that ends: a failed ASSERT of a pool, an
-- access through a pointer that holds no object, an exception of `at` out of range, or a list that
-- is followed for more steps than its pool ever handed out objects. Updates has the operations on orders and
-- `onMarketUpdate`.
pub mod Updates
pub mod Links
pub mod Levels
pub mod Circle
pub mod Join
pub mod Between
pub mod Order
pub mod Lead
pub mod Insert
pub mod Leave
pub mod Within
pub mod Detach
pub mod Remove
pub mod Orders
pub mod Quote
pub mod Queues
pub mod Enter
pub mod Sides
pub mod Grow
pub mod Open
pub mod Replace
pub mod Unlink
pub mod Cleared
pub mod Focus
pub mod Relead
pub mod Depart
pub mod Close
pub mod Best
pub mod Behind
pub mod Apply
pub mod Withdraw
pub mod Change
pub mod Tests
use yquant_system.Base.{
  ℕ, zero, suc, ◌+◌, ◌-◌, ◌%◌, Bool, true, false, not, ◌&&◌, ◌||◌, Option, none, some, ltb, ◌==◌,
  if◌then◌else◌, ◌>>=◌, assert, update,
}
use yquant_system.Base.Int.{ℤ, pos, pos_part, neg_part, leb_ℤ, ltb_ℤ}
use yquant_system.Types.{
  Side, buy, is_buy, is_sell, max_order_ids, max_price_levels, u64_mod, u32_mod,
}
use yquant_system.Messages.{MarketUpdateType, MarketUpdate}
use yquant_system.MemPool.{MemPool, allocate, deallocate, load, modify}
use yquant_system.MemPool

pub record MarketOrder : Type 0 where
  pub order_id : ℕ
  pub side : Side
  pub price : ℤ
  pub qty : ℕ
  pub priority : ℕ
  pub prev_order : Option ℕ
  pub next_order : Option ℕ

pub record MarketOrdersAtPrice : Type 0 where
  pub side : Side
  pub price : ℤ
  pub first_mkt_order : Option ℕ
  pub prev_entry : Option ℕ
  pub next_entry : Option ℕ

pub record Bbo : Type 0 where
  pub bid_price : ℤ
  pub ask_price : ℤ
  pub bid_qty : ℕ
  pub ask_qty : ℕ

pub record MarketOrderBook : Type 0 where
  pub oid_to_order : ℕ → Option ℕ
  pub orders_at_price_pool : MemPool MarketOrdersAtPrice
  pub bids_by_price : Option ℕ
  pub asks_by_price : Option ℕ
  pub price_orders_at_price : ℕ → Option ℕ
  pub order_pool : MemPool MarketOrder
  pub bbo : Bbo

abbrev pub no_bbo : Bbo
no_bbo = record { bid_price = pos 0; ask_price = pos 0; bid_qty = 0; ask_qty = 0 }

unfoldable pub create : Bool → MarketOrderBook
create debug = record {
  oid_to_order = λ _. none;
  orders_at_price_pool = MemPool.create debug max_price_levels;
  bids_by_price = none;
  asks_by_price = none;
  price_orders_at_price = λ _. none;
  order_pool = MemPool.create debug max_order_ids;
  bbo = no_bbo;
}

-- An access through a pointer.
abbrev pub deref : {A : Type 0} → Option ℕ → MemPool A → Option A
deref none p = none
deref (some i) p = load i p

abbrev pub write : {A : Type 0} → Option ℕ → (A → A) → MemPool A → Option (MemPool A)
write none f p = none
write (some i) f p = modify i f p

abbrev pub same_pointer : Option ℕ → Option ℕ → Bool
same_pointer none none = true
same_pointer none (some j) = false
same_pointer (some i) none = false
same_pointer (some i) (some j) = i == j

abbrev pub set_prev_entry : Option ℕ → MarketOrdersAtPrice → MarketOrdersAtPrice
set_prev_entry p n = record n { prev_entry = p }

abbrev pub set_next_entry : Option ℕ → MarketOrdersAtPrice → MarketOrdersAtPrice
set_next_entry p n = record n { next_entry = p }

abbrev pub set_prev_order : Option ℕ → MarketOrder → MarketOrder
set_prev_order p n = record n { prev_order = p }

abbrev pub set_next_order : Option ℕ → MarketOrder → MarketOrder
set_next_order p n = record n { next_order = p }

-- The remainder is taken in the unsigned type of `kMaxPriceLevels`.
unfoldable pub price_to_index : ℤ → ℕ
price_to_index price =
    (pos_part price + u64_mod - neg_part price % u64_mod) % u64_mod % max_price_levels

abbrev pub get_orders_at_price : ℤ → MarketOrderBook → Option ℕ
get_orders_at_price price b = b.price_orders_at_price (price_to_index price)

-- `side == Side::BUY ? bids_by_price_ : asks_by_price_`
abbrev pub best_of : Side → MarketOrderBook → Option ℕ
best_of side b = if is_buy side then b.bids_by_price else b.asks_by_price

abbrev pub set_best : Side → Option ℕ → MarketOrderBook → MarketOrderBook
set_best side best b =
    if is_buy side then record b { bids_by_price = best } else record b { asks_by_price = best }

abbrev pub set_levels : MemPool MarketOrdersAtPrice → MarketOrderBook → MarketOrderBook
set_levels p b = record b { orders_at_price_pool = p }

-- The condition of `add_after`: the new price is less aggressive than that of the target.
abbrev pub is_worse : Side → ℤ → ℤ → Bool
is_worse side price target =
    (is_sell side && ltb_ℤ target price) || (is_buy side && ltb_ℤ price target)

-- The loop that looks for the place of a new level.
unfoldable pub seek :
    ℕ → MemPool MarketOrdersAtPrice → ℕ → Side → ℤ → Option ℕ → Bool → Option (Option ℕ × Bool)
seek zero p best side price target add_after = none
seek (suc fuel) p best side price target add_after =
    let round = (do
      t ← deref target p
      let again = is_worse side price t.price
      seek fuel p best side price (if again then t.next_entry else target) again) in
    if add_after && not (same_pointer target (some best)) then round else some (target, add_after)

-- Where the new level goes: at `target`, after it or before it.
unfoldable pub find_place : MemPool MarketOrdersAtPrice → ℕ → Side → ℤ → Option (Option ℕ × Bool)
find_place p best side price = do
  t ← load best p
  if is_worse side price t.price
      then (do
        u ← deref t.next_entry p
        seek (suc p.next_unused) p best side price t.next_entry (is_worse side price u.price))
      else some (some best, false)

-- The writes after the search; `level` points to the new level.
unfoldable pub link_after :
    ℕ → ℕ → Option ℕ → MemPool MarketOrdersAtPrice → Option (MemPool MarketOrdersAtPrice)
link_after best level target p = do
  b ← load best p
  let place = if same_pointer target (some best) then b.prev_entry else target
  p1 ← modify level (set_prev_entry place) p
  t ← deref place p1
  p2 ← write t.next_entry (set_prev_entry (some level)) p1
  u ← deref place p2
  p3 ← modify level (set_next_entry u.next_entry) p2
  write place (set_next_entry (some level)) p3

unfoldable pub link_before :
    ℕ → Option ℕ → MemPool MarketOrdersAtPrice → Option (MemPool MarketOrdersAtPrice)
link_before level target p = do
  t ← deref target p
  p1 ← modify level (λ n. set_next_entry target (set_prev_entry t.prev_entry n)) p
  u ← deref target p1
  p2 ← write u.prev_entry (set_next_entry (some level)) p1
  write target (set_prev_entry (some level)) p2

-- The first level of a side, alone in its list.
unfoldable pub link_alone : ℕ → MemPool MarketOrdersAtPrice → Option (MemPool MarketOrdersAtPrice)
link_alone level p =
    modify level (λ n. set_prev_entry (some level) (set_next_entry (some level) n)) p

-- The most aggressive level so far moves down.
unfoldable pub take_lead : ℕ → ℕ → Side → ℤ → Option ℕ → MarketOrderBook → Option MarketOrderBook
take_lead level best side price target b = do
  l ← load best b.orders_at_price_pool
  if (is_buy side && ltb_ℤ l.price price) || (is_sell side && ltb_ℤ price l.price)
      then (do
        t ← deref target b.orders_at_price_pool
        p ←
            write target
              (set_next_entry
                (if same_pointer t.next_entry (some best) then some level else t.next_entry))
              b.orders_at_price_pool
        some (set_best side (some level) (set_levels p b)))
      else some b

-- The part of `addOrdersAtPrice` for a side that has levels.
unfoldable pub link_level : ℕ → ℕ → Side → ℤ → MarketOrderBook → Option MarketOrderBook
link_level level best side price b = do
  (target, add_after) ← find_place b.orders_at_price_pool best side price
  if add_after
      then (do p ← link_after best level target b.orders_at_price_pool; some (set_levels p b))
      else (do
        p ← link_before level target b.orders_at_price_pool
        take_lead level best side price target (set_levels p b))

unfoldable pub link_on_side : Option ℕ → ℕ → Side → ℤ → MarketOrderBook → Option MarketOrderBook
link_on_side none level side price b = do
  p ← link_alone level b.orders_at_price_pool
  some (set_levels p (set_best side (some level) b))
link_on_side (some best) level side price b = link_level level best side price b

unfoldable pub add_orders_at_price : ℕ → MarketOrderBook → Option MarketOrderBook
add_orders_at_price level b = do
  n ← load level b.orders_at_price_pool
  link_on_side (best_of n.side b) level n.side n.price (record b {
    price_orders_at_price = update b.price_orders_at_price (price_to_index n.price) (some level);
  })

-- The part of `removeOrdersAtPrice` for a side that keeps other levels.
unfoldable pub unlink_level :
    ℕ → MemPool MarketOrdersAtPrice → Option (Option ℕ × MemPool MarketOrdersAtPrice)
unlink_level level p = do
  n ← load level p
  p1 ← write n.prev_entry (set_next_entry n.next_entry) p
  n1 ← load level p1
  p2 ← write n1.next_entry (set_prev_entry n1.prev_entry) p1
  n2 ← load level p2
  p3 ← modify level (λ n. set_prev_entry none (set_next_entry none n)) p2
  some (n2.next_entry, p3)

unfoldable pub unlink_from_side : ℕ → Side → MarketOrderBook → Option MarketOrderBook
unlink_from_side level side b = do
  n ← load level b.orders_at_price_pool
  let shrunk = (do
    (next, p) ← unlink_level level b.orders_at_price_pool
    let b1 = set_levels p b
    some (if same_pointer (some level) (best_of side b) then set_best side next b1 else b1))
  if same_pointer n.next_entry (some level) then some (set_best side none b) else shrunk

abbrev pub free_level : Option ℕ → ℕ → Side → MarketOrderBook → Option MarketOrderBook
free_level none index side b = none
free_level (some level) index side b = do
  b1 ← unlink_from_side level side b
  p ← deallocate level b1.orders_at_price_pool
  some (record b1 {
    price_orders_at_price = update b1.price_orders_at_price index none;
    orders_at_price_pool = p;
  })

unfoldable pub remove_orders_at_price : Side → ℤ → MarketOrderBook → Option MarketOrderBook
remove_orders_at_price side price b =
    free_level (get_orders_at_price price b) (price_to_index price) side b
