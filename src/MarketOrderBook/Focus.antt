-- ===== src/MarketOrderBook/Focus.antt =====
-- trading/strategy/market_order_book.h: one order of a side, with its queue and the other queues.
use yquant_system.Base.{
  ℕ, ◌≡◌, ◌<◌, true, false, Option, some, List, [], ◌∷◌, ◌++◌, arith, sym, ◌∙◌, has, AllDistinct,
  ==_self, subst,
}
use yquant_system.Base.Int.{ℤ}
use yquant_system.Types.{Side, max_order_ids, u32_mod}
use yquant_system.MemPool.{object}
use yquant_system.MarketOrderBook.{MarketOrderBook}
use yquant_system.MarketOrderBook.Links.{
  ptrs, Seg-at, has-ptrs, AllDistinct-split, AllDistinct-without,
}
use yquant_system.MarketOrderBook.Join.{has_neither}
use yquant_system.MarketOrderBook.Levels.{Level}
use yquant_system.MarketOrderBook.Orders.{Item, in_level, order_node}
use yquant_system.MarketOrderBook.Queues.{
  PriceQueue, orders_of, OrderSlots, Table, AreOf, QueueInv, AllQueues, SideInv, orders_of-append,
  AllQueues-append, AllQueues-split, or_right,
}
use yquant_system.MarketOrderBook.Enter.{not_both}

-- What the invariant says of one order of a level.
abbrev pub IsOf : Side → ℤ → Table → Item → Type 0
IsOf side price ids z =
    (z.side ≡ side)
    × (z.price ≡ price)
    × (z.qty < u32_mod)
    × (z.order_id < max_order_ids)
    × (ids z.order_id ≡ some z.ptr)

AreOf-at :
    (side : Side) (price : ℤ) (ids : Table) (os : List Item) (z : Item) (ps : List Item)
    → AreOf side price ids (os ++ z ∷ ps)
    → IsOf side price ids z
AreOf-at side price ids [] z ps h = h.0
AreOf-at side price ids (o ∷ os) z ps h = AreOf-at side price ids os z ps h.1

-- The order `z` in the queue `os ++ z ∷ ps` of the level `l`, between the queues `front` and `back`.
pub record Focus (side : Side) (b : MarketOrderBook) (front : List PriceQueue) (l : Level)
    (os : List Item) (z : Item) (ps : List Item) (back : List PriceQueue) : Type 0 where
  pub before : AllQueues side b.order_pool.slot b.price_orders_at_price b.oid_to_order front
  pub queue :
      QueueInv side b.order_pool.slot b.price_orders_at_price b.oid_to_order
        (record { level = l; orders = os ++ z ∷ ps })
  pub after : AllQueues side b.order_pool.slot b.price_orders_at_price b.oid_to_order back
  pub of_z : IsOf side l.price b.oid_to_order z
  pub node : (u : Option ℕ) × (t : Option ℕ) × (b.order_pool.slot z.ptr ≡ object (order_node u t z))
  pub distinct : AllDistinct (ptrs in_level (os ++ z ∷ ps))
  pub here : has z.ptr (ptrs in_level (os ++ z ∷ ps)) ≡ true
  pub once : has z.ptr (ptrs in_level (os ++ ps)) ≡ false
  pub apart_before :
      (j : ℕ)
      → has j (ptrs in_level (orders_of front)) ≡ true
      → has j (ptrs in_level (os ++ z ∷ ps)) ≡ false
  pub apart_after :
      (j : ℕ)
      → has j (ptrs in_level (orders_of back)) ≡ true
      → has j (ptrs in_level (os ++ z ∷ ps)) ≡ false

pub focus :
    (side : Side) (b : MarketOrderBook) (front : List PriceQueue) (l : Level) (os : List Item)
    (z : Item) (ps : List Item) (back : List PriceQueue)
    → SideInv side b (front ++ record { level = l; orders = os ++ z ∷ ps } ∷ back)
    → Focus side b front l os z ps back
focus side b front l os z ps back inv =
    let q : PriceQueue = record { level = l; orders = os ++ z ∷ ps } in
    let parts =
      AllQueues-split side b.order_pool.slot b.price_orders_at_price b.oid_to_order front (q ∷ back)
        inv.queues in
    let by_front = AllDistinct-split in_level (orders_of front) ((os ++ z ∷ ps) ++ orders_of back) (
      subst (λ r. AllDistinct (ptrs in_level r)) (orders_of-append front (q ∷ back))
        inv.distinct_orders) in
    let by_back = AllDistinct-split in_level (os ++ z ∷ ps) (orders_of back) by_front.1 in
    record {
      before = parts.0;
      queue = parts.1.0;
      after = parts.1.1;
      of_z = AreOf-at side l.price b.oid_to_order os z ps parts.1.0.orders;
      node = Seg-at in_level b.order_pool.slot _ _ os z ps parts.1.0.ring;
      distinct = by_back.0;
      here =
          has-ptrs in_level z.ptr os (z ∷ ps)
          ∙ or_right (has z.ptr (ptrs in_level os)) (has z.ptr (ptrs in_level (z ∷ ps)))
              (ground (arith, ==_self z.ptr));
      once = AllDistinct-without in_level os z ps by_back.0;
      apart_before = λ j m.
          (has_neither _ _
            (sym (has-ptrs in_level j (os ++ z ∷ ps) (orders_of back)) ∙ by_front.2 j m)).0;
      apart_after = λ j m. not_both _ _ (by_back.2 j) m;
    }

-- The queues of a side after a change of this one, where queues without its orders stay valid.
pub AllQueues-refocus :
    (side : Side) (b : MarketOrderBook) (front : List PriceQueue) (l : Level) (os : List Item)
    (z : Item) (ps : List Item) (back : List PriceQueue) (s' : OrderSlots) (table' ids' : Table)
    (q' : PriceQueue)
    → Focus side b front l os z ps back
    → ((qs : List PriceQueue)
        → ((j : ℕ)
            → has j (ptrs in_level (orders_of qs)) ≡ true
            → has j (ptrs in_level (os ++ z ∷ ps)) ≡ false)
        → AllQueues side b.order_pool.slot b.price_orders_at_price b.oid_to_order qs
        → AllQueues side s' table' ids' qs)
    → QueueInv side s' table' ids' q'
    → AllQueues side s' table' ids' (front ++ q' ∷ back)
AllQueues-refocus side b front l os z ps back s' table' ids' q' at others h =
    AllQueues-append side s' table' ids' front (q' ∷ back) (others front at.apart_before at.before)
      (h, others back at.apart_after at.after)
