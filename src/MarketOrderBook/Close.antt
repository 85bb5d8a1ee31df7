-- ===== src/MarketOrderBook/Close.antt =====
-- trading/strategy/market_order_book.h: `removeOrder` of the last order of a level.
use yquant_system.Base.{
  ◌≡◌, false, some, none, List, [], ◌∷◌, ◌++◌, refl, sym, ◌∙◌, has, AllDistinct, update,
  update_self, update_ne, ap, ==_self, subst, lt→ltb,
}
use yquant_system.Types.{Side, buy, sell, no_side, max_order_ids}
use yquant_system.MemPool.{MemPool, object, deallocate}
use yquant_system.MemPool.Free.{load-eq, Deallocated, deallocate-Deallocated}
use yquant_system.MarketOrderBook.{
  MarketOrder, MarketOrdersAtPrice, MarketOrderBook, set_best, price_to_index,
  remove_orders_at_price,
}
use yquant_system.MarketOrderBook.Updates.{remove_order}
use yquant_system.MarketOrderBook.Links.{
  ptrs, first_or, Ring, AllDistinct-drop, AllDistinct-without, apart,
}
use yquant_system.MarketOrderBook.Levels.{Level, on_side}
use yquant_system.MarketOrderBook.Order.{IsSorted}
use yquant_system.MarketOrderBook.Insert.{with_side}
use yquant_system.MarketOrderBook.Remove.{unmapped, Removed, remove_orders_at_price-Removed}
use yquant_system.MarketOrderBook.Orders.{Item, in_level, order_node}
use yquant_system.MarketOrderBook.Queues.{
  PriceQueue, levels_of, orders_of, AllQueues, SideInv, levels_of-append, orders_of-append,
  AllQueues-append, AllQueues-slots, AllQueues-ids, AllQueues-table,
}
use yquant_system.MarketOrderBook.Sides.{SideInv-set_best, bbo-set_best}
use yquant_system.MarketOrderBook.Depart.{same_value}
use yquant_system.MarketOrderBook.Cleared.{Cleared, Cleared-set_best}
use yquant_system.MarketOrderBook.Focus.{Focus, focus}

-- The book after the writes, but for its best level.
abbrev pub closed :
    MemPool MarketOrder
    → MemPool MarketOrdersAtPrice
    → Level
    → Item
    → MarketOrderBook
    → MarketOrderBook
closed orders levels l z b = record b {
  order_pool = orders;
  orders_at_price_pool = levels;
  price_orders_at_price = update b.price_orders_at_price (price_to_index l.price) none;
  oid_to_order = update b.oid_to_order z.order_id none;
}

closed-eq :
    (side : Side) (orders : MemPool MarketOrder) (levels : MemPool MarketOrdersAtPrice)
    (ws : List Level) (l : Level) (z : Item) (b : MarketOrderBook)
    → record (unmapped l (with_side side levels ws b)) {
      oid_to_order = update (unmapped l (with_side side levels ws b)).oid_to_order z.order_id none;
      order_pool = orders;
    }
      ≡ set_best side (first_or (on_side side) none ws) (closed orders levels l z b)
closed-eq buy orders levels ws l z b = refl
closed-eq sell orders levels ws l z b = refl
closed-eq no_side orders levels ws l z b = refl

unmapped-orders :
    (side : Side) (levels : MemPool MarketOrdersAtPrice) (ws : List Level) (l : Level)
    (b : MarketOrderBook)
    → (unmapped l (with_side side levels ws b)).order_pool ≡ b.order_pool
unmapped-orders buy levels ws l b = refl
unmapped-orders sell levels ws l b = refl
unmapped-orders no_side levels ws l b = refl

module _ (side : Side) (b : MarketOrderBook) (front : List PriceQueue) (l : Level) (z : Item)
    (back : List PriceQueue)
    (inv : SideInv side b (front ++ record { level = l; orders = z ∷ [] } ∷ back)) where
  abbrev q : PriceQueue
  q = record { level = l; orders = z ∷ [] }

  at : Focus side b front l [] z [] back
  at = focus side b front l [] z [] back inv

  node : b.order_pool.slot z.ptr ≡ object (order_node (some z.ptr) (some z.ptr) z)
  node = at.queue.ring.0

  abbrev rest_levels : List Level
  rest_levels = levels_of front ++ levels_of back

  levels_split : levels_of (front ++ q ∷ back) ≡ levels_of front ++ l ∷ levels_of back
  levels_split = levels_of-append front (q ∷ back)

  distinct_levels : AllDistinct (ptrs (on_side side) (levels_of front ++ l ∷ levels_of back))
  distinct_levels =
      subst (λ ls. AllDistinct (ptrs (on_side side) ls)) levels_split inv.distinct_levels

  distinct_orders : AllDistinct (ptrs in_level (orders_of front ++ z ∷ orders_of back))
  distinct_orders =
      subst (λ r. AllDistinct (ptrs in_level r)) (orders_of-append front (q ∷ back))
        inv.distinct_orders

  removed :
      (p' : MemPool MarketOrdersAtPrice) × (remove_orders_at_price side l.price b
        ≡ some (unmapped l (with_side side p' rest_levels b)))
      × Removed side b.orders_at_price_pool p' rest_levels l
  removed =
      remove_orders_at_price-Removed side b (levels_of front) l (levels_of back) inv.levels_valid
        distinct_levels
        (subst (Ring (on_side side) b.orders_at_price_pool.slot) levels_split inv.ring)
        (inv.best ∙ ap (first_or (on_side side) none) levels_split) at.queue.listed
        (subst (IsSorted side) levels_split inv.sorted)

  freed :
      (p' : MemPool MarketOrder) × (deallocate z.ptr b.order_pool ≡ some p')
      × Deallocated b.order_pool z.ptr p'
  freed = deallocate-Deallocated b.order_pool z.ptr _ inv.orders_valid node

  abbrev result : MarketOrderBook
  result = closed freed.0 removed.0 l z b

  remove_order-eq :
      remove_order z.ptr b ≡ some (set_best side (first_or (on_side side) none rest_levels) result)
  unfolding remove_order
  remove_order-eq =
      rw
        (
          load-eq b.order_pool z.ptr _ node,
          ==_self z.ptr,
          ap (λ s. remove_orders_at_price s z.price b) at.of_z.0
              ∙ ap (λ r. remove_orders_at_price side r b) at.of_z.1
              ∙ removed.1,
          lt→ltb z.order_id max_order_ids at.of_z.3,
          unmapped-orders side removed.0 rest_levels l b,
          freed.1,
        )
        (ap some (closed-eq side freed.0 removed.0 rest_levels l z b))

  z_gone : has z.ptr (ptrs in_level (orders_of (front ++ back))) ≡ false
  z_gone =
      subst (λ r. has z.ptr (ptrs in_level r) ≡ false) (sym (orders_of-append front back))
        (AllDistinct-without in_level (orders_of front) z (orders_of back) distinct_orders)

  l_gone : has l.ptr (ptrs (on_side side) (levels_of (front ++ back))) ≡ false
  l_gone =
      subst (λ ls. has l.ptr (ptrs (on_side side) ls) ≡ false) (sym (levels_of-append front back))
        (AllDistinct-without (on_side side) (levels_of front) l (levels_of back) distinct_levels)

  queues' :
      AllQueues side freed.0.slot result.price_orders_at_price result.oid_to_order (front ++ back)
  queues' =
      AllQueues-table side freed.0.slot b.price_orders_at_price result.oid_to_order
        (price_to_index l.price) none (front ++ back)
        (λ j m e.
          apart (on_side side) l.ptr j (ptrs (on_side side) (levels_of (front ++ back))) l_gone m
            (same_value (sym at.queue.listed ∙ e)))
        (AllQueues-ids side freed.0.slot b.price_orders_at_price b.oid_to_order z.order_id none
          (front ++ back)
          (λ j m e.
            apart in_level z.ptr j (ptrs in_level (orders_of (front ++ back))) z_gone m
              (same_value (sym at.of_z.4 ∙ e)))
          (AllQueues-slots side b.order_pool.slot freed.0.slot b.price_orders_at_price
            b.oid_to_order (front ++ back)
            (λ j m. freed.2.others j (λ e.
              apart in_level z.ptr j (ptrs in_level (orders_of (front ++ back))) z_gone m (sym e)))
            (AllQueues-append side b.order_pool.slot b.price_orders_at_price b.oid_to_order front
              back at.before at.after)))

  cleared : Cleared b l z [] result
  cleared = (
    update_self b.oid_to_order z.order_id none,
    λ id ne. update_ne b.oid_to_order z.order_id id none ne,
    update_self b.price_orders_at_price (price_to_index l.price) none,
    λ i ne. update_ne b.price_orders_at_price (price_to_index l.price) i none ne,
    freed.2.gone,
    λ e. removed.2.gone,
  )

  -- An order that is alone at its price takes its level with it.
  pub remove_order-Closed :
      (b' : MarketOrderBook) × (remove_order z.ptr b ≡ some b')
      × (b'.bbo ≡ b.bbo)
      × Cleared b l z [] b'
      × SideInv side b' (front ++ back)
  remove_order-Closed =
      let same = levels_of-append front back in
      (
        set_best side (first_or (on_side side) none rest_levels) result,
        remove_order-eq,
        bbo-set_best side _ result,
        Cleared-set_best side _ b l z [] result cleared,
        subst
            (λ ls.
              SideInv side (set_best side (first_or (on_side side) none ls) result) (front ++ back))
            same
            (SideInv-set_best side result (front ++ back) removed.2.valid freed.2.valid
              (subst (Ring (on_side side) removed.0.slot) (sym same) removed.2.ring)
              (subst (IsSorted side) (sym same) removed.2.sorted)
              (subst (λ ls. AllDistinct (ptrs (on_side side) ls)) (sym same)
                (AllDistinct-drop (on_side side) (levels_of front) l (levels_of back)
                  distinct_levels))
              (subst (λ r. AllDistinct (ptrs in_level r)) (sym (orders_of-append front back))
                (AllDistinct-drop in_level (orders_of front) z (orders_of back) distinct_orders))
              queues'),
      )
