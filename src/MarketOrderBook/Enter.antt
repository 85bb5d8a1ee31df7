-- ===== src/MarketOrderBook/Enter.antt =====
-- trading/strategy/market_order_book.h: `addOrder` of an order at a price that has a level.
use yquant_system.Base.{
  ℕ, ◌≡◌, ◌≢◌, ◌<◌, Bool, true, false, Option, some, none, List, [], ◌∷◌, ◌++◌, refl, sym, ◌∙◌, has,
  AllDistinct, update, update_self, ap, subst, lt→ltb, ne→==,
}
use mathlib.Core.List.{append_assoc}
use mathlib.Core.Option.{none-ne-some}
use yquant_system.Base.Int.{ℤ}
use yquant_system.Types.{Side, buy, sell, no_side, max_order_ids, u32_mod}
use yquant_system.MemPool.{MemPool, object}
use yquant_system.MemPool.Free.{load-eq}
use yquant_system.MarketOrderBook.{MarketOrder, MarketOrderBook, best_of, price_to_index}
use yquant_system.MarketOrderBook.Updates.{add_order, queue_order, append_order}
use yquant_system.MarketOrderBook.Links.{
  ptrs, first_or, Ring, has-ptrs, AllDistinct-split, AllDistinct-with, Seg-at, apart,
}
use yquant_system.MarketOrderBook.Levels.{Level, on_side}
use yquant_system.MarketOrderBook.Circle.{level_node}
use yquant_system.MarketOrderBook.Join.{has_neither}
use yquant_system.MarketOrderBook.Order.{IsSorted}
use yquant_system.MarketOrderBook.Orders.{Item, in_level, order_node, Queued, append_order-Queued}
use yquant_system.MarketOrderBook.Queues.{
  PriceQueue, levels_of, orders_of, QueueInv, AllQueues, SideInv, AreOf, levels_of-append,
  orders_of-append, AllQueues-append, AllQueues-split, AllQueues-slots, AllQueues-ids, AreOf-ids,
  Table,
}

-- An order that is not in the book yet, in its slot of the pool.
pub record IsFresh (side : Side) (b : MarketOrderBook) (y : Item) (qs : List PriceQueue)
    : Type 0 where
  pub node : (u : Option ℕ) × (t : Option ℕ) × (b.order_pool.slot y.ptr ≡ object (order_node u t y))
  pub absent : has y.ptr (ptrs in_level (orders_of qs)) ≡ false
  pub same_side : y.side ≡ side
  pub word : y.qty < u32_mod
  pub known : y.order_id < max_order_ids
  pub unlisted : b.oid_to_order y.order_id ≡ none

-- The book with another pool of orders, in which the table leads to a new order.
abbrev pub entered : MemPool MarketOrder → Item → MarketOrderBook → MarketOrderBook
entered p y b = record b {
  order_pool = p;
  oid_to_order = update b.oid_to_order y.order_id (some y.ptr);
}

AreOf-append :
    (side : Side) (price : ℤ) (ids : Table) (os : List Item) (y : Item)
    → AreOf side price ids os
    → AreOf side price ids (y ∷ [])
    → AreOf side price ids (os ++ y ∷ [])
AreOf-append side price ids [] y h g = g
AreOf-append side price ids (o ∷ os) y h g = (h.0, AreOf-append side price ids os y h.1 g)

best_of-entered :
    (side : Side) (p : MemPool MarketOrder) (y : Item) (b : MarketOrderBook)
    → best_of side (entered p y b) ≡ best_of side b
best_of-entered buy p y b = refl
best_of-entered sell p y b = refl
best_of-entered no_side p y b = refl

pub not_both : (a c : Bool) → (a ≡ true → c ≡ false) → c ≡ true → a ≡ false
not_both true c f h = absurd (cc (sym h ∙ f refl))
not_both false c f h = refl

module _ (side : Side) (b : MarketOrderBook) (front : List PriceQueue) (l : Level) (x : Item)
    (xs : List Item) (back : List PriceQueue) (y : Item)
    (inv : SideInv side b (front ++ record { level = l; orders = x ∷ xs } ∷ back))
    (fresh : IsFresh side b y (front ++ record { level = l; orders = x ∷ xs } ∷ back))
    (priced : y.price ≡ l.price) where
  abbrev q : PriceQueue
  q = record { level = l; orders = x ∷ xs }

  abbrev q' : PriceQueue
  q' = record { level = l; orders = (x ∷ xs) ++ y ∷ [] }

  parts :
      AllQueues side b.order_pool.slot b.price_orders_at_price b.oid_to_order front
      × AllQueues side b.order_pool.slot b.price_orders_at_price b.oid_to_order (q ∷ back)
  parts =
      AllQueues-split side b.order_pool.slot b.price_orders_at_price b.oid_to_order front (q ∷ back)
        inv.queues

  -- The orders of the other levels, and of this one.
  apart_front :
      AllDistinct (ptrs in_level (orders_of front))
      × AllDistinct (ptrs in_level ((x ∷ xs) ++ orders_of back))
      × ((j : ℕ)
          → has j (ptrs in_level (orders_of front)) ≡ true
          → has j (ptrs in_level ((x ∷ xs) ++ orders_of back)) ≡ false)
  apart_front = AllDistinct-split in_level (orders_of front) ((x ∷ xs) ++ orders_of back) (
      subst (λ os. AllDistinct (ptrs in_level os)) (orders_of-append front (q ∷ back))
        inv.distinct_orders)

  apart_back :
      AllDistinct (ptrs in_level (x ∷ xs))
      × AllDistinct (ptrs in_level (orders_of back))
      × ((j : ℕ)
          → has j (ptrs in_level (x ∷ xs)) ≡ true
          → has j (ptrs in_level (orders_of back)) ≡ false)
  apart_back = AllDistinct-split in_level (x ∷ xs) (orders_of back) apart_front.1

  absent :
      (has y.ptr (ptrs in_level (orders_of front)) ≡ false)
      × (has y.ptr (ptrs in_level (x ∷ xs)) ≡ false)
      × (has y.ptr (ptrs in_level (orders_of back)) ≡ false)
  absent =
      let (a, c) = has_neither _ _ (
        sym (has-ptrs in_level y.ptr (orders_of front) ((x ∷ xs) ++ orders_of back))
        ∙ ap (λ os. has y.ptr (ptrs in_level os)) (sym (orders_of-append front (q ∷ back)))
        ∙ fresh.absent) in
      let (d, e) = has_neither _ _ (sym (has-ptrs in_level y.ptr (x ∷ xs) (orders_of back)) ∙ c) in
      (a, d, e)

  queued :
      (p' : MemPool MarketOrder) × (append_order y.ptr (some x.ptr) b.order_pool ≡ some p')
      × Queued b.order_pool p' ((x ∷ xs) ++ y ∷ [])
  queued =
      append_order-Queued b.order_pool y x xs fresh.node.0 fresh.node.1 inv.orders_valid
        (absent.1, apart_back.0) parts.1.0.ring fresh.node.2

  abbrev p' : MemPool MarketOrder
  p' = queued.0

  abbrev ids' : Table
  ids' = update b.oid_to_order y.order_id (some y.ptr)

  no_one : (j : ℕ) → b.oid_to_order y.order_id ≢ some j
  no_one j e = none-ne-some j (sym fresh.unlisted ∙ e)

  -- Slots of other orders are as before.
  kept :
      (j : ℕ) → has j (ptrs in_level (x ∷ xs)) ≡ false → j ≢ y.ptr → p'.slot j ≡ b.order_pool.slot j
  kept j h ne =
      queued.2.others j (has-ptrs in_level j (x ∷ xs) (y ∷ []) ∙ rw (h, ne→== j y.ptr ne) refl)

  front' : AllQueues side p'.slot b.price_orders_at_price ids' front
  front' =
      AllQueues-ids side p'.slot b.price_orders_at_price b.oid_to_order y.order_id (some y.ptr)
        front (λ j m. no_one j)
        (AllQueues-slots side b.order_pool.slot p'.slot b.price_orders_at_price b.oid_to_order front
          (λ j m.
            kept j
              (has_neither _ _
                (sym (has-ptrs in_level j (x ∷ xs) (orders_of back)) ∙ apart_front.2 j m)).0
              (λ e. apart in_level y.ptr j (ptrs in_level (orders_of front)) absent.0 m (sym e)))
          parts.0)

  back' : AllQueues side p'.slot b.price_orders_at_price ids' back
  back' =
      AllQueues-ids side p'.slot b.price_orders_at_price b.oid_to_order y.order_id (some y.ptr) back
        (λ j m. no_one j)
        (AllQueues-slots side b.order_pool.slot p'.slot b.price_orders_at_price b.oid_to_order back
          (λ j m.
            kept j (not_both _ _ (apart_back.2 j) m)
              (λ e. apart in_level y.ptr j (ptrs in_level (orders_of back)) absent.2 m (sym e)))
          parts.1.1)

  queue' : QueueInv side p'.slot b.price_orders_at_price ids' q'
  queue' = record {
    ring = queued.2.ring;
    first = parts.1.0.first;
    filled = refl;
    orders =
        AreOf-append side l.price ids' (x ∷ xs) y
          (AreOf-ids side l.price b.oid_to_order y.order_id (some y.ptr) (x ∷ xs) (λ j m. no_one j)
            parts.1.0.orders)
          (
            (
              fresh.same_side,
              priced,
              fresh.word,
              fresh.known,
              update_self b.oid_to_order y.order_id _,
            ),
            tt,
          );
    listed = parts.1.0.listed;
  }

  levels_same : levels_of (front ++ q' ∷ back) ≡ levels_of (front ++ q ∷ back)
  levels_same = levels_of-append front (q' ∷ back) ∙ sym (levels_of-append front (q ∷ back))

  distinct' : AllDistinct (ptrs in_level (orders_of (front ++ q' ∷ back)))
  distinct' =
      subst (λ os. AllDistinct (ptrs in_level os)) (sym new_orders)
        (AllDistinct-with in_level (orders_of front ++ x ∷ xs) y (orders_of back)
          (subst (λ os. AllDistinct (ptrs in_level os)) old_orders inv.distinct_orders)
          (subst (λ os. has y.ptr (ptrs in_level os) ≡ false) old_orders fresh.absent))
    where
      old_orders : orders_of (front ++ q ∷ back) ≡ (orders_of front ++ x ∷ xs) ++ orders_of back
      old_orders =
          orders_of-append front (q ∷ back)
          ∙ sym (append_assoc (orders_of front) (x ∷ xs) (orders_of back))

      new_orders :
          orders_of (front ++ q' ∷ back) ≡ (orders_of front ++ x ∷ xs) ++ y ∷ orders_of back
      new_orders =
          orders_of-append front (q' ∷ back)
          ∙ ap (λ os. orders_of front ++ os) (append_assoc (x ∷ xs) (y ∷ []) (orders_of back))
          ∙ sym (append_assoc (orders_of front) (x ∷ xs) (y ∷ orders_of back))

  enter_level-SideInv : SideInv side (entered p' y b) (front ++ q' ∷ back)
  enter_level-SideInv = record {
    levels_valid = inv.levels_valid;
    orders_valid = queued.2.valid;
    ring = subst (Ring (on_side side) b.orders_at_price_pool.slot) (sym levels_same) inv.ring;
    best =
        best_of-entered side p' y b
        ∙ inv.best
        ∙ ap (first_or (on_side side) none) (sym levels_same);
    sorted = subst (IsSorted side) (sym levels_same) inv.sorted;
    distinct_levels =
        subst (λ ls. AllDistinct (ptrs (on_side side) ls)) (sym levels_same) inv.distinct_levels;
    distinct_orders = distinct';
    queues =
        AllQueues-append side p'.slot b.price_orders_at_price ids' front (q' ∷ back) front'
          (queue', back');
  }

  level_at :
      (u : Option ℕ) × (t : Option ℕ) × (b.orders_at_price_pool.slot l.ptr
        ≡ object (level_node side u t l))
  level_at =
      Seg-at (on_side side) b.orders_at_price_pool.slot _ _ (levels_of front) l (levels_of back) (
        subst (λ ls. Ring (on_side side) b.orders_at_price_pool.slot ls)
          (levels_of-append front (q ∷ back)) inv.ring)

  add_order-eq : add_order y.ptr b ≡ some (entered p' y b)
  unfolding add_order queue_order
  add_order-eq =
      rw
        (
          load-eq b.order_pool y.ptr _ fresh.node.2,
          ap (λ r. b.price_orders_at_price (price_to_index r)) priced ∙ parts.1.0.listed,
          load-eq b.orders_at_price_pool l.ptr _ level_at.2,
          parts.1.0.first,
          queued.1,
          lt→ltb y.order_id max_order_ids fresh.known,
        )
        refl

  -- An order at the price of a level goes to the end of its queue.
  pub add_order-Entered :
      (p' : MemPool MarketOrder) × (add_order y.ptr b ≡ some (entered p' y b))
      × SideInv side (entered p' y b) (front ++ q' ∷ back)
  add_order-Entered = (p', add_order-eq, enter_level-SideInv)
