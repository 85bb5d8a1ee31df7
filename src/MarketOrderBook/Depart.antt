-- ===== src/MarketOrderBook/Depart.antt =====
-- trading/strategy/market_order_book.h: `removeOrder` of an order whose level has others.
use yquant_system.Base.{
  ℕ, ◌≡◌, ◌≢◌, true, false, Option, some, none, List, [], ◌∷◌, ◌++◌, refl, sym, ◌∙◌, has,
  AllDistinct, update, update_self, update_ne, ap, ◌==◌, nonempty, subst, lt→ltb, ne→==,
  if◌then◌else◌,
}
use mathlib.Core.List.{append_assoc}
use yquant_system.Base.Int.{ℤ}
use yquant_system.Types.{Side, buy, sell, no_side, max_order_ids}
use yquant_system.MemPool.{MemPool, object, deallocate}
use yquant_system.MemPool.Inv.{IsValid}
use yquant_system.MemPool.Free.{load-eq, Deallocated, deallocate-Deallocated}
use yquant_system.MarketOrderBook.{
  MarketOrder, MarketOrdersAtPrice, MarketOrderBook, best_of, price_to_index, same_pointer, write,
}
use yquant_system.MarketOrderBook.Updates.{remove_order, unlink_order}
use yquant_system.MarketOrderBook.Links.{
  ptrs, first_or, Ring, Seg-frame, Seg-at, has-ptrs, AllDistinct-drop, apart,
}
use yquant_system.MarketOrderBook.Replace.{ptrs-replace, first_or-replace}
use yquant_system.MarketOrderBook.Levels.{Level, on_side}
use yquant_system.MarketOrderBook.Circle.{level_node}
use yquant_system.MarketOrderBook.Join.{has_neither, ne_head}
use yquant_system.MarketOrderBook.Order.{IsSorted}
use yquant_system.MarketOrderBook.Orders.{Item, in_level}
use yquant_system.MarketOrderBook.Unlink.{Unlinked, unlink_node-Unlinked}
use yquant_system.MarketOrderBook.Queues.{
  PriceQueue, levels_of, orders_of, QueueInv, AllQueues, SideInv, AreOf, levels_of-append,
  orders_of-append, AllQueues-slots, AllQueues-ids, AreOf-ids, Table,
}
use yquant_system.MarketOrderBook.Cleared.{Cleared}
use yquant_system.MarketOrderBook.Focus.{Focus, focus, AllQueues-refocus}
use yquant_system.MarketOrderBook.Relead.{with_first, IsSorted-first, relead}

AreOf-without :
    (side : Side) (price : ℤ) (ids : Table) (os : List Item) (z : Item) (ps : List Item)
    → AreOf side price ids (os ++ z ∷ ps)
    → AreOf side price ids (os ++ ps)
AreOf-without side price ids [] z ps h = h.1
AreOf-without side price ids (o ∷ os) z ps h = (h.0, AreOf-without side price ids os z ps h.1)

pub same_value : {i j : ℕ} → some j ≡ some i → j ≡ i
same_value e = cc

-- The book after the order went.
abbrev pub departed :
    MemPool MarketOrder → MemPool MarketOrdersAtPrice → Item → MarketOrderBook → MarketOrderBook
departed orders levels z b = record b {
  order_pool = orders;
  orders_at_price_pool = levels;
  oid_to_order = update b.oid_to_order z.order_id none;
}

best_of-departed :
    (side : Side) (orders : MemPool MarketOrder) (levels : MemPool MarketOrdersAtPrice) (z : Item)
    (b : MarketOrderBook)
    → best_of side (departed orders levels z b) ≡ best_of side b
best_of-departed buy orders levels z b = refl
best_of-departed sell orders levels z b = refl
best_of-departed no_side orders levels z b = refl

module _ (side : Side) (b : MarketOrderBook) (front : List PriceQueue) (l : Level) (os : List Item)
    (z : Item) (ps : List Item) (back : List PriceQueue)
    (inv : SideInv side b (front ++ record { level = l; orders = os ++ z ∷ ps } ∷ back))
    (more : nonempty (os ++ ps) ≡ true) where
  abbrev q : PriceQueue
  q = record { level = l; orders = os ++ z ∷ ps }

  abbrev l' : Level
  l' = with_first l (first_or in_level none (os ++ ps))

  abbrev q' : PriceQueue
  q' = record { level = l'; orders = os ++ ps }

  at : Focus side b front l os z ps back
  at = focus side b front l os z ps back inv

  gone : Unlinked b.order_pool os z ps
  gone = unlink_node-Unlinked b.order_pool z inv.orders_valid os ps more at.distinct at.queue.ring

  freed :
      (p' : MemPool MarketOrder) × (deallocate z.ptr gone.pool ≡ some p')
      × Deallocated gone.pool z.ptr p'
  freed = deallocate-Deallocated gone.pool z.ptr gone.left.stays.0 gone.left.valid gone.left.stays.1

  levels_split : levels_of (front ++ q ∷ back) ≡ levels_of front ++ l ∷ levels_of back
  levels_split = levels_of-append front (q ∷ back)

  distinct_levels : AllDistinct (ptrs (on_side side) (levels_of front ++ l ∷ levels_of back))
  distinct_levels =
      subst (λ ls. AllDistinct (ptrs (on_side side) ls)) levels_split inv.distinct_levels

  ring : Ring (on_side side) b.orders_at_price_pool.slot (levels_of front ++ l ∷ levels_of back)
  ring = subst (Ring (on_side side) b.orders_at_price_pool.slot) levels_split inv.ring

  -- The level in the pool, and the pool after the write of its first order.
  placed :
      (u : Option ℕ) × (t : Option ℕ) × (b.orders_at_price_pool.slot l.ptr
        ≡ object (level_node side u t l))
  placed =
      Seg-at (on_side side) b.orders_at_price_pool.slot _ _ (levels_of front) l (levels_of back)
        ring

  led :
      (w : MemPool MarketOrdersAtPrice) × ((if same_pointer l.first (some z.ptr)
          then write
              (some l.ptr)
              (λ n. record n { first_mkt_order = some gone.next })
              b.orders_at_price_pool
          else some b.orders_at_price_pool)
        ≡ some w)
      × IsValid w
      × Ring (on_side side) w.slot (levels_of front ++ l' ∷ levels_of back)
  led =
      relead side b.orders_at_price_pool (levels_of front) l (levels_of back) os z ps gone.next
        inv.levels_valid distinct_levels ring at.queue.first gone.lead at.once

  abbrev result : MarketOrderBook
  result = departed freed.0 led.0 z b

  unlink_order-eq :
      unlink_order z.ptr (some l.ptr) b
      ≡ some (record b { order_pool = gone.pool; orders_at_price_pool = led.0 })
  unfolding unlink_order
  unlink_order-eq = rw (gone.run, load-eq b.orders_at_price_pool l.ptr _ placed.2) (rw led.1 refl)

  remove_order-eq : remove_order z.ptr b ≡ some result
  unfolding remove_order
  remove_order-eq =
      rw
        (
          load-eq b.order_pool z.ptr _ gone.node,
          ne→== gone.prev z.ptr gone.other,
          ap (λ r. b.price_orders_at_price (price_to_index r)) at.of_z.1 ∙ at.queue.listed,
          unlink_order-eq,
          lt→ltb z.order_id max_order_ids at.of_z.3,
          freed.1,
        )
        refl

  -- Slots of other orders are as before.
  kept :
      (j : ℕ) → has j (ptrs in_level (os ++ z ∷ ps)) ≡ false → freed.0.slot j ≡ b.order_pool.slot j
  kept j h =
      let (a, c) =
        has_neither (has j (ptrs in_level os)) (has j (ptrs in_level (z ∷ ps)))
          (sym (has-ptrs in_level j os (z ∷ ps)) ∙ h) in
      let (d, e) = has_neither (j == z.ptr) (has j (ptrs in_level ps)) c in
      let ne : j ≢ z.ptr = ne_head j z.ptr (ptrs in_level ps) c in
      freed.2.others j ne ∙ gone.left.others j (rw (d, has-ptrs in_level j os ps, a) e)

  ids_of : (j : ℕ) → j ≢ z.ptr → b.oid_to_order z.order_id ≢ some j
  ids_of j ne e = ne (same_value (sym e ∙ at.of_z.4))

  other_queues :
      (qs : List PriceQueue)
      → ((j : ℕ)
          → has j (ptrs in_level (orders_of qs)) ≡ true
          → has j (ptrs in_level (os ++ z ∷ ps)) ≡ false)
      → AllQueues side b.order_pool.slot b.price_orders_at_price b.oid_to_order qs
      → AllQueues side freed.0.slot b.price_orders_at_price result.oid_to_order qs
  other_queues qs f h =
      AllQueues-ids side freed.0.slot b.price_orders_at_price b.oid_to_order z.order_id none qs
        (λ j m. ids_of j (apart in_level j z.ptr (ptrs in_level (os ++ z ∷ ps)) (f j m) at.here))
        (AllQueues-slots side b.order_pool.slot freed.0.slot b.price_orders_at_price b.oid_to_order
          qs (λ j m. kept j (f j m)) h)

  queue' : QueueInv side freed.0.slot b.price_orders_at_price result.oid_to_order q'
  queue' = record {
    ring =
        Seg-frame in_level gone.pool.slot freed.0.slot _ _ (os ++ ps)
          (λ j m.
            freed.2.others j
              (λ e. apart in_level z.ptr j (ptrs in_level (os ++ ps)) at.once m (sym e)))
          gone.left.ring;
    first = refl;
    filled = more;
    orders =
        AreOf-ids side l.price b.oid_to_order z.order_id none (os ++ ps)
          (λ j m.
            ids_of j (λ e. apart in_level z.ptr j (ptrs in_level (os ++ ps)) at.once m (sym e)))
          (AreOf-without side l.price b.oid_to_order os z ps at.queue.orders);
    listed = at.queue.listed;
  }

  levels_split' : levels_of (front ++ q' ∷ back) ≡ levels_of front ++ l' ∷ levels_of back
  levels_split' = levels_of-append front (q' ∷ back)

  distinct_orders' : AllDistinct (ptrs in_level (orders_of (front ++ q' ∷ back)))
  distinct_orders' =
      subst (λ r. AllDistinct (ptrs in_level r)) (sym new_orders)
        (AllDistinct-drop in_level (orders_of front ++ os) z (ps ++ orders_of back)
          (subst (λ r. AllDistinct (ptrs in_level r)) old_orders inv.distinct_orders))
    where
      old_orders :
          orders_of (front ++ q ∷ back) ≡ (orders_of front ++ os) ++ z ∷ (ps ++ orders_of back)
      old_orders =
          orders_of-append front (q ∷ back)
          ∙ ap (λ r. orders_of front ++ r) (append_assoc os (z ∷ ps) (orders_of back))
          ∙ sym (append_assoc (orders_of front) os (z ∷ (ps ++ orders_of back)))

      new_orders :
          orders_of (front ++ q' ∷ back) ≡ (orders_of front ++ os) ++ (ps ++ orders_of back)
      new_orders =
          orders_of-append front (q' ∷ back)
          ∙ ap (λ r. orders_of front ++ r) (append_assoc os ps (orders_of back))
          ∙ sym (append_assoc (orders_of front) os (ps ++ orders_of back))

  -- An order that is not alone at its price leaves its queue.
  pub remove_order-Departed :
      (b' : MarketOrderBook) × (remove_order z.ptr b ≡ some b')
      × (b'.bbo ≡ b.bbo)
      × Cleared b l z (os ++ ps) b'
      × SideInv side b' (front ++ q' ∷ back)
  remove_order-Departed = (
    result,
    remove_order-eq,
    refl,
    (
      update_self b.oid_to_order z.order_id none,
      λ id ne. update_ne b.oid_to_order z.order_id id none ne,
      at.queue.listed ∙ sym (ap (λ r. if r then some l.ptr else none) more),
      λ i ne. refl,
      freed.2.gone,
      λ e. cc (sym more ∙ e),
    ),
    record {
      levels_valid = led.2;
      orders_valid = freed.2.valid;
      ring = subst (Ring (on_side side) led.0.slot) (sym levels_split') led.3;
      best =
          best_of-departed side freed.0 led.0 z b
          ∙ inv.best
          ∙ ap (first_or (on_side side) none) levels_split
          ∙ sym (first_or-replace (on_side side) l l' refl none (levels_of front) (levels_of back))
          ∙ ap (first_or (on_side side) none) (sym levels_split');
      sorted = subst (IsSorted side) (sym levels_split') (
          IsSorted-first side (levels_of front) l (first_or in_level none (os ++ ps))
            (levels_of back) (subst (IsSorted side) levels_split inv.sorted));
      distinct_levels =
          subst (λ ls. AllDistinct (ptrs (on_side side) ls)) (sym levels_split')
            (subst AllDistinct
              (sym (ptrs-replace (on_side side) l l' refl (levels_of front) (levels_of back)))
              distinct_levels);
      distinct_orders = distinct_orders';
      queues =
          AllQueues-refocus side b front l os z ps back freed.0.slot b.price_orders_at_price
            result.oid_to_order q' at other_queues queue';
    },
  )
