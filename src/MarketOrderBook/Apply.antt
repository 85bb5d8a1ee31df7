-- ===== src/MarketOrderBook/Apply.antt =====
-- trading/strategy/market_order_book.cpp: what `onMarketUpdate` does to the side of an update.
use yquant_system.Base.{
  ℕ, ◌<◌, ◌≡◌, Bool, true, false, not, ◌&&◌, Option, some, none, List, [], ◌∷◌, ◌++◌, refl, sym,
  ◌∙◌, ap, ◌⊎◌, inl, inr, Bool-cases, has, update_self, update_ne, subst,
}
use yquant_system.Base.Int.{ℤ}
use yquant_system.Types.{Side, is_buy, is_sell, max_order_ids, u32_mod}
use yquant_system.Messages.{MarketUpdateType, MarketUpdate}
use yquant_system.MemPool.{MemPool, object_at, allocate}
use yquant_system.MemPool.Ops.{Allocated, allocate-Allocated}
use yquant_system.MarketOrderBook.{MarketOrder, MarketOrderBook, is_worse, price_to_index}
use yquant_system.MarketOrderBook.Updates.{
  add_order, add_update, on_market_update, on_update_of, publish_change, is_clear,
}
use yquant_system.MarketOrderBook.Links.{ptrs, has-ptrs, Seg-absent, apart}
use yquant_system.MarketOrderBook.Levels.{Level}
use yquant_system.MarketOrderBook.Order.{has_side, IsNew}
use yquant_system.MarketOrderBook.Orders.{Item, in_level, order_node}
use yquant_system.MarketOrderBook.Queues.{
  PriceQueue, levels_of, orders_of, SideInv, AllQueues, AllQueues-slots, Table, OrderSlots,
}
use yquant_system.MarketOrderBook.Enter.{IsFresh, entered, add_order-Entered}
use yquant_system.MarketOrderBook.Open.{add_order-Opened}
use yquant_system.MarketOrderBook.Grow.{insert_queue, IsNew-unlisted}
use yquant_system.MarketOrderBook.Best.{
  price_of, quantity_of, IsQuoted, reaches_best, Published, publish_change-Published, updated_sides,
}
use yquant_system.MarketOrderBook.Behind.{best_of-orders, below_behind}

-- The queues of a side after an order came: behind the others at its price, or in a queue of its own
-- where no queue has the price.
pub data AddedTo (side : Side) (y : Item) : List PriceQueue → List PriceQueue → Type 0 where
  behind :
      (front : List PriceQueue) (l : Level) (os : List Item) (back : List PriceQueue)
      → l.price ≡ y.price
      → AddedTo side y
          (front ++ record { level = l; orders = os } ∷ back)
          (front ++ record { level = l; orders = os ++ y ∷ [] } ∷ back)
  alone :
      (l : Level) (qs : List PriceQueue)
      → l.price ≡ y.price
      → IsNew y.price (levels_of qs)
      → AddedTo side y qs (insert_queue side (record { level = l; orders = y ∷ [] }) qs)

-- The table of prices leads to no level, or to one of the side that has the price.
abbrev pub HasPlace : MarketOrderBook → ℤ → List PriceQueue → Type 0
HasPlace b price qs =
    (b.price_orders_at_price (price_to_index price) ≡ none)
    ⊎ ((front : List PriceQueue) × (l : Level) × (x : Item) × (xs : List Item) × (back : List
          PriceQueue)
        × (qs ≡ front ++ record { level = l; orders = x ∷ xs } ∷ back)
        × (price ≡ l.price))

abbrev pub item_of : MarketUpdate → ℕ → Item
item_of u i = record {
  ptr = i;
  order_id = u.order_id;
  side = u.side;
  price = u.price;
  qty = u.quantity;
  priority = u.priority;
}

absent_order :
    (side : Side) (s : OrderSlots) (table ids : Table) (i : ℕ) (qs : List PriceQueue)
    → object_at (s i) ≡ none
    → AllQueues side s table ids qs
    → has i (ptrs in_level (orders_of qs)) ≡ false
absent_order side s table ids i [] e h = refl
absent_order side s table ids i (q ∷ qs) e h =
    has-ptrs in_level i q.orders (orders_of qs)
    ∙ rw (Seg-absent in_level s i _ _ q.orders e h.0.ring)
        (absent_order side s table ids i qs e h.1)

below_alone :
    (side : Side) (q : PriceQueue) (qs : List PriceQueue)
    → reaches_best side q.level.price qs ≡ false
    → (price_of (insert_queue side q qs) ≡ price_of qs)
      × (quantity_of (insert_queue side q qs) ≡ quantity_of qs)
below_alone side q [] h = absurd (cc)
below_alone side q (w ∷ ws) h = elim (Bool-cases (is_worse side q.level.price w.level.price)) [
  | inl e ↦ rw e (refl, refl)
  | inr e ↦ absurd (cc (sym h ∙ ap not e))
]

module _ (side : Side) (u : MarketUpdate) (b : MarketOrderBook) (qs : List PriceQueue)
    (sided : has_side side ≡ true) (on_its_side : u.side ≡ side) (inv : SideInv side b qs)
    (quoted : IsQuoted side b.bbo qs) where
  -- An update that changes the book, as one change of it.
  pub published :
      (change : MarketOrderBook → Option MarketOrderBook)
      → is_clear u.type ≡ false
      → ((bid ask : Bool) → on_update_of u.type u bid ask b ≡ publish_change bid ask change b)
      → on_market_update u b
        ≡ publish_change
            (is_buy side && reaches_best side u.price qs)
            (is_sell side && reaches_best side u.price qs)
            change
            b
  unfolding on_market_update
  published change open_type is =
      let (bid, ask) = updated_sides side u b qs sided on_its_side open_type inv in
      rw (bid, ask) (is _ _)

  module _ (adds : u.type ≡ MarketUpdateType.add) (word : u.quantity < u32_mod)
      (known : u.order_id < max_order_ids) (unlisted : b.oid_to_order u.order_id ≡ none)
      (order_room : b.order_pool.in_use < b.order_pool.capacity)
      (level_room : b.orders_at_price_pool.in_use < b.orders_at_price_pool.capacity) where
    made :
        (i : ℕ) × (p : MemPool MarketOrder) × (allocate
            (order_node none none (item_of u 0))
            b.order_pool
          ≡ some (i, p))
        × Allocated (order_node none none (item_of u 0)) b.order_pool i p
    made =
        allocate-Allocated (order_node none none (item_of u 0)) b.order_pool inv.orders_valid
          order_room

    abbrev y : Item
    y = item_of u made.0

    abbrev c : MarketOrderBook
    c = record b { order_pool = made.1 }

    absent : has y.ptr (ptrs in_level (orders_of qs)) ≡ false
    absent =
        absent_order side b.order_pool.slot b.price_orders_at_price b.oid_to_order y.ptr qs
          made.3.fresh inv.queues

    fresh : IsFresh side c y qs
    fresh = record {
      node = (none, none, ap (λ f. f y.ptr) made.3.written ∙ update_self b.order_pool.slot y.ptr _);
      absent = absent;
      same_side = on_its_side;
      word = word;
      known = known;
      unlisted = unlisted;
    }

    inv' : SideInv side c qs
    inv' = record {
      levels_valid = inv.levels_valid;
      orders_valid = made.3.valid;
      ring = inv.ring;
      best = best_of-orders side made.1 b ∙ inv.best;
      sorted = inv.sorted;
      distinct_levels = inv.distinct_levels;
      distinct_orders = inv.distinct_orders;
      queues =
          AllQueues-slots side b.order_pool.slot made.1.slot b.price_orders_at_price b.oid_to_order
            qs
            (λ j m.
              ap (λ f. f j) made.3.written
              ∙ update_ne b.order_pool.slot y.ptr j _
                  (λ e. apart in_level y.ptr j (ptrs in_level (orders_of qs)) absent m (sym e)))
            inv.queues;
    }

    add_update-eq : add_update u b ≡ add_order y.ptr c
    unfolding add_update
    add_update-eq = rw made.2 refl

    -- The side after the update.
    abbrev Outcome : Type 0
    Outcome =
        (i : ℕ) × (qs' : List PriceQueue) × AddedTo side (item_of u i) qs qs'
        × Published (on_market_update u b) side qs'

    publish_with :
        (qs' : List PriceQueue) (b1 : MarketOrderBook)
        → add_order y.ptr c ≡ some b1
        → b1.bbo ≡ b.bbo
        → SideInv side b1 qs'
        → (reaches_best side u.price qs ≡ false
            → (price_of qs' ≡ price_of qs) × (quantity_of qs' ≡ quantity_of qs))
        → Published (on_market_update u b) side qs'
    unfolding on_update_of
    publish_with qs' b1 run same inv1 below =
        subst (λ r. Published r side qs')
          (sym (published (add_update u) (ap is_clear adds) (λ bid ask. rw adds refl)))
          (publish_change-Published side u b qs qs' (add_update u) b1 sided (add_update-eq ∙ run)
            inv1 same quoted below (reaches_best side u.price qs) refl)

    added_behind :
        (front : List PriceQueue) (l : Level) (x : Item) (xs : List Item) (back : List PriceQueue)
        → qs ≡ front ++ record { level = l; orders = x ∷ xs } ∷ back
        → u.price ≡ l.price
        → Outcome
    added_behind front l x xs back e at =
        let old = front ++ record { level = l; orders = x ∷ xs } ∷ back in
        let new = front ++ record { level = l; orders = (x ∷ xs) ++ y ∷ [] } ∷ back in
        let (p', run, inv1) =
          add_order-Entered side c front l x xs back y (subst (SideInv side c) e inv')
            (subst (IsFresh side c y) e fresh) at in
        (
          made.0,
          new,
          subst (λ r. AddedTo side y r new) (sym e) (behind front l (x ∷ xs) back (sym at)),
          publish_with new (entered p' y c) run refl inv1 (
              subst
                (λ r.
                  reaches_best side u.price r ≡ false
                  → (price_of new ≡ price_of r) × (quantity_of new ≡ quantity_of r))
                (sym e) (below_behind side u.price front l (x ∷ xs) ((x ∷ xs) ++ y ∷ []) back at)),
        )

    added_alone : b.price_orders_at_price (price_to_index u.price) ≡ none → Outcome
    added_alone at =
        let (b1, l, run, priced, same, inv1) =
          add_order-Opened side c qs y sided inv' fresh at level_room in
        let q : PriceQueue = record { level = l; orders = y ∷ [] } in
        (
          made.0,
          insert_queue side q qs,
          alone l qs priced (
              IsNew-unlisted side b.order_pool.slot b.price_orders_at_price b.oid_to_order u.price
                qs at inv.queues),
          publish_with (insert_queue side q qs) b1 run same inv1
              (λ h. below_alone side q qs (ap (λ r. reaches_best side r qs) priced ∙ h)),
        )

    -- On a side of the client's book that stands for queues of orders by price, the most
    -- aggressive first, and whose quote is right, onMarketUpdate of an ADD on that side ends with
    -- a notice of a book update, when its quantity is a 32-bit word, its order id is inside the
    -- table and not in use, both pools have room, and the table of prices leads from its price to
    -- no level or to the queue of that price: afterwards the order stands behind the others at its
    -- price, or alone in a new queue before the first queue that is less aggressive; the circles
    -- of the side's orders and levels, the order of its levels, both tables and both pools stay as
    -- they must be, and the quote of the side is the price of its best level with the 32-bit sum
    -- of the quantities there, or 0 and 0 for no level.
    pub on_market_update-Added : HasPlace b u.price qs → Outcome
    on_market_update-Added (inl at) = added_alone at
    on_market_update-Added (inr (front, l, x, xs, back, e, at)) =
        added_behind front l x xs back e at
