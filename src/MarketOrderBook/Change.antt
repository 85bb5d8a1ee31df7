-- ===== src/MarketOrderBook/Change.antt =====
-- trading/strategy/market_order_book.cpp: what `onMarketUpdate` does for a modified order.
use yquant_system.Base.{
  ℕ, ◌<◌, ◌≡◌, true, false, Option, some, none, List, [], ◌∷◌, ◌++◌, refl, sym, ◌∙◌, ap, nonempty,
  lt→ltb, ltb, subst, has, AllDistinct, update_ne,
}
use mathlib.Core.List.{append_assoc}
use yquant_system.Base.Int.{ℤ}
use yquant_system.Types.{Side, max_order_ids, u32_mod}
use yquant_system.Messages.{MarketUpdateType, MarketUpdate}
use yquant_system.MemPool.{MemPool, object}
use yquant_system.MemPool.Free.{modify-eq, modify-IsValid}
use yquant_system.MarketOrderBook.{MarketOrder, MarketOrderBook}
use yquant_system.MarketOrderBook.Updates.{modify_update, on_market_update, on_update_of, is_clear}
use yquant_system.MarketOrderBook.Links.{ptrs, first_or, Ring, apart}
use yquant_system.MarketOrderBook.Replace.{ptrs-replace, first_or-replace, Ring-replace}
use yquant_system.MarketOrderBook.Levels.{Level, on_side}
use yquant_system.MarketOrderBook.Circle.{put}
use yquant_system.MarketOrderBook.Order.{has_side, IsSorted}
use yquant_system.MarketOrderBook.Orders.{Item, in_level, order_node}
use yquant_system.MarketOrderBook.Queues.{
  PriceQueue, levels_of, orders_of, SideInv, QueueInv, AllQueues, AreOf, Table, AllQueues-slots,
  levels_of-append, orders_of-append,
}
use yquant_system.MarketOrderBook.Focus.{Focus, focus, AllQueues-refocus}
use yquant_system.MarketOrderBook.Best.{IsQuoted, reaches_best, Published, publish_change-Published}
use yquant_system.MarketOrderBook.Apply.{published}
use yquant_system.MarketOrderBook.Behind.{below_behind, best_of-orders}

-- The order with another quantity.
abbrev pub with_quantity : ℕ → Item → Item
with_quantity n z = record z { qty = n }

AreOf-quantity :
    (side : Side) (price : ℤ) (ids : Table) (n : ℕ) (os : List Item) (z : Item) (ps : List Item)
    → n < u32_mod
    → AreOf side price ids (os ++ z ∷ ps)
    → AreOf side price ids (os ++ with_quantity n z ∷ ps)
AreOf-quantity side price ids n [] z ps w h = ((h.0.0, h.0.1, w, h.0.3, h.0.4), h.1)
AreOf-quantity side price ids n (o ∷ os) z ps w h =
    (h.0, AreOf-quantity side price ids n os z ps w h.1)

order_links :
    (z : Item) (u t a c : Option ℕ)
    → object (order_node u t z) ≡ object (order_node a c z)
    → (u ≡ a) × (t ≡ c)
order_links z u t a c e = (cc, cc)

nonempty-middle : (os : List Item) (z : Item) (ps : List Item) → nonempty (os ++ z ∷ ps) ≡ true
nonempty-middle [] z ps = refl
nonempty-middle (o ∷ os) z ps = refl

module _ (side : Side) (u : MarketUpdate) (b : MarketOrderBook) (front : List PriceQueue)
    (l : Level) (os : List Item) (z : Item) (ps : List Item) (back : List PriceQueue)
    (sided : has_side side ≡ true) (on_its_side : u.side ≡ side)
    (inv : SideInv side b (front ++ record { level = l; orders = os ++ z ∷ ps } ∷ back))
    (quoted : IsQuoted side b.bbo (front ++ record { level = l; orders = os ++ z ∷ ps } ∷ back))
    (modifies : u.type ≡ MarketUpdateType.modify) (found : u.order_id ≡ z.order_id)
    (at_its_price : u.price ≡ l.price) (word : u.quantity < u32_mod) where
  abbrev q : PriceQueue
  q = record { level = l; orders = os ++ z ∷ ps }

  abbrev z' : Item
  z' = with_quantity u.quantity z

  abbrev q' : PriceQueue
  q' = record { level = l; orders = os ++ z' ∷ ps }

  at : Focus side b front l os z ps back
  at = focus side b front l os z ps back inv

  abbrev orders : MemPool MarketOrder
  orders = put b.order_pool z.ptr (order_node at.node.0 at.node.1 z')

  abbrev c : MarketOrderBook
  c = record b { order_pool = orders }

  modify_update-eq : modify_update u b ≡ some c
  unfolding modify_update
  modify_update-eq =
      rw
        (
          ap (λ i. ltb i max_order_ids) found ∙ lt→ltb z.order_id max_order_ids at.of_z.3,
          ap b.oid_to_order found ∙ at.of_z.4,
          modify-eq (λ n. record n { qty = u.quantity }) b.order_pool z.ptr _ at.node.2,
        )
        refl

  other_queues :
      (qs : List PriceQueue)
      → ((j : ℕ)
          → has j (ptrs in_level (orders_of qs)) ≡ true
          → has j (ptrs in_level (os ++ z ∷ ps)) ≡ false)
      → AllQueues side b.order_pool.slot b.price_orders_at_price b.oid_to_order qs
      → AllQueues side orders.slot b.price_orders_at_price b.oid_to_order qs
  other_queues qs f h =
      AllQueues-slots side b.order_pool.slot orders.slot b.price_orders_at_price b.oid_to_order qs
        (λ j m.
          update_ne b.order_pool.slot z.ptr j _
            (apart in_level j z.ptr (ptrs in_level (os ++ z ∷ ps)) (f j m) at.here))
        h

  queue' : QueueInv side orders.slot b.price_orders_at_price b.oid_to_order q'
  queue' = record {
    ring =
        Ring-replace in_level z z' refl b.order_pool.slot os ps at.node.0 at.node.1 at.distinct
          at.node.2 (λ a t. order_links z at.node.0 at.node.1 a t) at.queue.ring;
    first = at.queue.first ∙ sym (first_or-replace in_level z z' refl none os ps);
    filled = nonempty-middle os z' ps;
    orders = AreOf-quantity side l.price b.oid_to_order u.quantity os z ps word at.queue.orders;
    listed = at.queue.listed;
  }

  levels_same : levels_of (front ++ q' ∷ back) ≡ levels_of (front ++ q ∷ back)
  levels_same = levels_of-append front (q' ∷ back) ∙ sym (levels_of-append front (q ∷ back))

  ptrs_same :
      ptrs in_level (orders_of (front ++ q' ∷ back)) ≡ ptrs in_level (orders_of (front ++ q ∷ back))
  ptrs_same =
      ap (ptrs in_level) (split z')
      ∙ ptrs-replace in_level z z' refl (orders_of front ++ os) (ps ++ orders_of back)
      ∙ sym (ap (ptrs in_level) (split z))
    where
      split :
          (y : Item)
          → orders_of (front ++ record { level = l; orders = os ++ y ∷ ps } ∷ back)
            ≡ (orders_of front ++ os) ++ y ∷ (ps ++ orders_of back)
      split y =
          orders_of-append front (record { level = l; orders = os ++ y ∷ ps } ∷ back)
          ∙ ap (λ r. orders_of front ++ r) (append_assoc os (y ∷ ps) (orders_of back))
          ∙ sym (append_assoc (orders_of front) os (y ∷ (ps ++ orders_of back)))

  changed : SideInv side c (front ++ q' ∷ back)
  changed = record {
    levels_valid = inv.levels_valid;
    orders_valid = modify-IsValid b.order_pool z.ptr _ _ inv.orders_valid at.node.2;
    ring = subst (Ring (on_side side) b.orders_at_price_pool.slot) (sym levels_same) inv.ring;
    best =
        best_of-orders side orders b
        ∙ inv.best
        ∙ ap (first_or (on_side side) none) (sym levels_same);
    sorted = subst (IsSorted side) (sym levels_same) inv.sorted;
    distinct_levels =
        subst (λ ls. AllDistinct (ptrs (on_side side) ls)) (sym levels_same) inv.distinct_levels;
    distinct_orders = subst AllDistinct (sym ptrs_same) inv.distinct_orders;
    queues =
        AllQueues-refocus side b front l os z ps back orders.slot b.price_orders_at_price
          b.oid_to_order q' at other_queues queue';
  }

  -- On a side of the client's book that stands for queues of orders by price and whose quote is
  -- right, onMarketUpdate of a MODIFY of an order of that side, at the price of its queue and with
  -- a 32-bit quantity, ends with a notice of a book update: afterwards the order has the new
  -- quantity and every order its place; the circles of the side's orders and levels, the order of
  -- its levels, both tables and both pools stay as they must be, and the quote of the side is the
  -- price of its best level with the 32-bit sum of the quantities there, or 0 and 0 for no level.
  pub on_market_update-Modified : Published (on_market_update u b) side (front ++ q' ∷ back)
  unfolding on_update_of
  on_market_update-Modified =
      subst (λ r. Published r side (front ++ q' ∷ back))
        (sym (
          published side u b (front ++ q ∷ back) sided on_its_side inv quoted (modify_update u)
            (ap is_clear modifies) (λ bid ask. rw modifies refl)))
        (publish_change-Published side u b (front ++ q ∷ back) (front ++ q' ∷ back)
          (modify_update u) c sided modify_update-eq changed refl quoted
          (below_behind side u.price front l (os ++ z ∷ ps) (os ++ z' ∷ ps) back at_its_price)
          (reaches_best side u.price (front ++ q ∷ back)) refl)
