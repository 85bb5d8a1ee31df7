-- ===== src/MarketOrderBook/Open.antt =====
-- trading/strategy/market_order_book.h: `addOrder` of an order at a price that has no level.
use yquant_system.Base.{
  ℕ, ◌≡◌, ◌<◌, true, false, some, none, List, [], ◌∷◌, refl, sym, ◌∙◌, has, AllDistinct, update,
  update_ne, update_self, ap, subst, lt→ltb,
}
use mathlib.Core.Option.{none-ne-some}
use yquant_system.Types.{Side, buy, sell, no_side, max_order_ids}
use yquant_system.MemPool.{MemPool, object, allocate}
use yquant_system.MemPool.Ops.{Allocated, allocate-Allocated}
use yquant_system.MemPool.Free.{load-eq, modify-eq, modify-IsValid}
use yquant_system.MarketOrderBook.{
  MarketOrder, MarketOrdersAtPrice, MarketOrderBook, best_of, set_best, price_to_index,
  set_prev_order, set_next_order, add_orders_at_price,
}
use yquant_system.MarketOrderBook.Updates.{add_order, queue_order, open_level}
use yquant_system.MarketOrderBook.Links.{
  ptrs, first_or, Ring, Seg-frame_one, Seg-absent, AllDistinct-with, apart,
}
use yquant_system.MarketOrderBook.Levels.{Level, on_side, insert_level}
use yquant_system.MarketOrderBook.Circle.{put, level_node}
use yquant_system.MarketOrderBook.Join.{Joined}
use yquant_system.MarketOrderBook.Order.{has_side, IsSorted}
use yquant_system.MarketOrderBook.Insert.{with_side, mapped, add_orders_at_price-Joined}
use yquant_system.MarketOrderBook.Orders.{Item, in_level, order_node}
use yquant_system.MarketOrderBook.Queues.{
  PriceQueue, levels_of, orders_of, QueueInv, AllQueues, SideInv, levels_of-append,
  orders_of-append, AllQueues-append, AllQueues-split, AllQueues-slots, AllQueues-ids,
  AllQueues-table,
}
use yquant_system.MarketOrderBook.Enter.{IsFresh}
use yquant_system.MarketOrderBook.Sides.{SideInv-set_best, bbo-set_best}
use yquant_system.MarketOrderBook.Grow.{
  insert_queue, Parts, insert_parts, levels_of-insert, IsNew-unlisted,
}

-- The book after the writes, but for its best level.
abbrev pub opened :
    MemPool MarketOrder
    → MemPool MarketOrdersAtPrice
    → Level
    → Item
    → MarketOrderBook
    → MarketOrderBook
opened orders levels l y b = record b {
  order_pool = orders;
  orders_at_price_pool = levels;
  price_orders_at_price = update b.price_orders_at_price (price_to_index l.price) (some l.ptr);
  oid_to_order = update b.oid_to_order y.order_id (some y.ptr);
}

opened-eq :
    (side : Side) (orders : MemPool MarketOrder) (levels0 levels : MemPool MarketOrdersAtPrice)
    (ws : List Level) (l : Level) (y : Item) (b : MarketOrderBook)
    → record (with_side side levels ws
        (mapped l (record b { order_pool = orders; orders_at_price_pool = levels0 }))) {
          oid_to_order =
              update
                (with_side side levels ws (
                  mapped l (record b {
                    order_pool = orders;
                    orders_at_price_pool = levels0;
                  }))).oid_to_order
                y.order_id
                (some y.ptr);
        }
      ≡ set_best side (first_or (on_side side) none ws) (opened orders levels l y b)
opened-eq buy orders levels0 levels ws l y b = refl
opened-eq sell orders levels0 levels ws l y b = refl
opened-eq no_side orders levels0 levels ws l y b = refl

best_of-pools :
    (side : Side) (orders : MemPool MarketOrder) (levels : MemPool MarketOrdersAtPrice)
    (b : MarketOrderBook)
    → best_of side (record b { order_pool = orders; orders_at_price_pool = levels })
      ≡ best_of side b
best_of-pools buy orders levels b = refl
best_of-pools sell orders levels b = refl
best_of-pools no_side orders levels b = refl

module _ (side : Side) (b : MarketOrderBook) (qs : List PriceQueue) (y : Item)
    (sided : has_side side ≡ true) (inv : SideInv side b qs) (fresh : IsFresh side b y qs)
    (unlisted : b.price_orders_at_price (price_to_index y.price) ≡ none)
    (room : b.orders_at_price_pool.in_use < b.orders_at_price_pool.capacity) where
  abbrev orders : MemPool MarketOrder
  orders = put b.order_pool y.ptr (order_node (some y.ptr) (some y.ptr) y)

  abbrev node : MarketOrdersAtPrice
  node = record {
    side = y.side;
    price = y.price;
    first_mkt_order = some y.ptr;
    prev_entry = none;
    next_entry = none;
  }

  made :
      (i : ℕ) × (p : MemPool MarketOrdersAtPrice) × (allocate node b.orders_at_price_pool
        ≡ some (i, p))
      × Allocated node b.orders_at_price_pool i p
  made = allocate-Allocated node b.orders_at_price_pool inv.levels_valid room

  abbrev l : Level
  l = record { ptr = made.0; price = y.price; first = some y.ptr }

  abbrev q : PriceQueue
  q = record { level = l; orders = y ∷ [] }

  new_level : has l.ptr (ptrs (on_side side) (levels_of qs)) ≡ false
  new_level =
      Seg-absent (on_side side) b.orders_at_price_pool.slot l.ptr _ _ (levels_of qs) made.3.fresh
        inv.ring

  joined :
      (p' : MemPool MarketOrdersAtPrice) × (add_orders_at_price l.ptr
          (record b { order_pool = orders; orders_at_price_pool = made.1 })
        ≡ some (
            with_side side p'
              (insert_level side l (levels_of qs))
              (mapped l (record b { order_pool = orders; orders_at_price_pool = made.1 }))))
      × Joined side made.1 p' (insert_level side l (levels_of qs))
      × IsSorted side (insert_level side l (levels_of qs))
  joined =
      add_orders_at_price-Joined side
        (record b { order_pool = orders; orders_at_price_pool = made.1 }) l (levels_of qs) none none
        sided made.3.valid
        (ap (λ f. f l.ptr) made.3.written
          ∙ update_self b.orders_at_price_pool.slot l.ptr _
          ∙ ap (λ s. object (level_node s none none l)) fresh.same_side)
        (new_level, inv.distinct_levels)
        (subst (λ s. Ring (on_side side) s (levels_of qs)) (sym made.3.written)
          (Seg-frame_one (on_side side) b.orders_at_price_pool.slot l.ptr _ _ _ (levels_of qs)
            new_level inv.ring))
        (best_of-pools side orders made.1 b ∙ inv.best) inv.sorted
        (IsNew-unlisted side b.order_pool.slot b.price_orders_at_price b.oid_to_order y.price qs
          unlisted inv.queues)

  abbrev result : MarketOrderBook
  result = opened orders joined.0 l y b

  add_order-eq :
      add_order y.ptr b
      ≡ some
          (set_best side (first_or (on_side side) none (insert_level side l (levels_of qs))) result)
  unfolding add_order queue_order open_level
  add_order-eq =
      rw
        (
          load-eq b.order_pool y.ptr _ fresh.node.2,
          unlisted,
          modify-eq (λ n. set_prev_order (some y.ptr) (set_next_order (some y.ptr) n)) b.order_pool
              y.ptr _ fresh.node.2,
          made.2,
          joined.1,
          lt→ltb y.order_id max_order_ids fresh.known,
        )
        (ap some (opened-eq side orders made.1 joined.0 (insert_level side l (levels_of qs)) l y b))

  cut : Parts side q qs
  cut = insert_parts side q qs

  -- The queues that were there are as before.
  others' :
      AllQueues side result.order_pool.slot result.price_orders_at_price result.oid_to_order qs
  others' =
      AllQueues-table side orders.slot b.price_orders_at_price result.oid_to_order
        (price_to_index y.price) (some l.ptr) qs (λ j m e. none-ne-some j (sym unlisted ∙ e))
        (AllQueues-ids side orders.slot b.price_orders_at_price b.oid_to_order y.order_id
          (some y.ptr) qs (λ j m e. none-ne-some j (sym fresh.unlisted ∙ e))
          (AllQueues-slots side b.order_pool.slot orders.slot b.price_orders_at_price b.oid_to_order
            qs
            (λ j m.
              update_ne b.order_pool.slot y.ptr j _
                (λ e. apart in_level y.ptr j (ptrs in_level (orders_of qs)) fresh.absent m (sym e)))
            inv.queues))

  queue' : QueueInv side result.order_pool.slot result.price_orders_at_price result.oid_to_order q
  queue' = record {
    ring = (update_self b.order_pool.slot y.ptr _, tt);
    first = refl;
    filled = refl;
    orders = (
      (fresh.same_side, refl, fresh.word, fresh.known, update_self b.oid_to_order y.order_id _),
      tt,
    );
    listed = update_self b.price_orders_at_price (price_to_index y.price) _;
  }

  queues' :
      AllQueues side result.order_pool.slot result.price_orders_at_price result.oid_to_order
        (insert_queue side q qs)
  queues' =
      let (front, back, old, is) = cut in
      let (f, g) =
        AllQueues-split side result.order_pool.slot result.price_orders_at_price result.oid_to_order
          front back
          (subst
            (AllQueues side result.order_pool.slot result.price_orders_at_price result.oid_to_order)
            old others') in
      subst (AllQueues side result.order_pool.slot result.price_orders_at_price result.oid_to_order)
        (sym is)
        (AllQueues-append side result.order_pool.slot result.price_orders_at_price
          result.oid_to_order front (q ∷ back) f (queue', g))

  distinct_orders' : AllDistinct (ptrs in_level (orders_of (insert_queue side q qs)))
  distinct_orders' =
      let (front, back, old, is) = cut in
      let before = ap orders_of old ∙ orders_of-append front back in
      subst (λ os. AllDistinct (ptrs in_level os))
        (sym (ap orders_of is ∙ orders_of-append front (q ∷ back)))
        (AllDistinct-with in_level (orders_of front) y (orders_of back)
          (subst (λ os. AllDistinct (ptrs in_level os)) before inv.distinct_orders)
          (subst (λ os. has y.ptr (ptrs in_level os) ≡ false) before fresh.absent))

  distinct_levels' : AllDistinct (ptrs (on_side side) (levels_of (insert_queue side q qs)))
  distinct_levels' =
      let (front, back, old, is) = cut in
      let before = ap levels_of old ∙ levels_of-append front back in
      subst (λ ls. AllDistinct (ptrs (on_side side) ls))
        (sym (ap levels_of is ∙ levels_of-append front (q ∷ back)))
        (AllDistinct-with (on_side side) (levels_of front) l (levels_of back)
          (subst (λ ls. AllDistinct (ptrs (on_side side) ls)) before inv.distinct_levels)
          (subst (λ ls. has l.ptr (ptrs (on_side side) ls) ≡ false) before new_level))

  -- An order at a price without a level opens one, at the place of its price.
  pub add_order-Opened :
      (b' : MarketOrderBook) × (l : Level) × (add_order y.ptr b ≡ some b')
      × (l.price ≡ y.price)
      × (b'.bbo ≡ b.bbo)
      × SideInv side b' (insert_queue side (record { level = l; orders = y ∷ [] }) qs)
  add_order-Opened =
      let same = levels_of-insert side q qs in
      (
        set_best side (first_or (on_side side) none (insert_level side l (levels_of qs))) result,
        l,
        add_order-eq,
        refl,
        bbo-set_best side _ result,
        subst
            (λ ls.
              SideInv side (set_best side (first_or (on_side side) none ls) result)
                (insert_queue side q qs))
            same
            (SideInv-set_best side result (insert_queue side q qs) joined.2.valid
              (modify-IsValid b.order_pool y.ptr _ _ inv.orders_valid fresh.node.2)
              (subst (Ring (on_side side) joined.0.slot) (sym same) joined.2.ring)
              (subst (IsSorted side) (sym same) joined.3) distinct_levels' distinct_orders'
              queues'),
      )
