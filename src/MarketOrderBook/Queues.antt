-- ===== src/MarketOrderBook/Queues.antt =====
-- trading/strategy/market_order_book.h: what holds of one side of the client's book between updates,
-- and what the side stands for: the queues of orders by price, the most aggressive first.
use yquant_system.Base.{
  ℕ, ◌≡◌, ◌≢◌, ◌<◌, Bool, true, ◌||◌, Option, some, none, List, [], ◌∷◌, ◌++◌, arith, refl, sym,
  ◌∙◌, has, AllDistinct, update, update_ne, ap, ==_self, nonempty,
}
use mathlib.Core.List.{append_assoc}
use yquant_system.Base.Int.{ℤ}
use yquant_system.Types.{Side, max_order_ids, u32_mod}
use yquant_system.MemPool.{Slot}
use yquant_system.MemPool.Inv.{IsValid}
use yquant_system.MarketOrderBook.{MarketOrder, MarketOrderBook, best_of, price_to_index}
use yquant_system.MarketOrderBook.Links.{ptrs, first_or, Ring, Seg-frame, has-ptrs}
use yquant_system.MarketOrderBook.Levels.{Level, on_side}
use yquant_system.MarketOrderBook.Orders.{Item, in_level}
use yquant_system.MarketOrderBook.Order.{IsSorted}

pub record PriceQueue : Type 0 where
  pub level : Level
  pub orders : List Item

abbrev pub levels_of : List PriceQueue → List Level
levels_of [] = []
levels_of (q ∷ qs) = q.level ∷ levels_of qs

abbrev pub orders_of : List PriceQueue → List Item
orders_of [] = []
orders_of (q ∷ qs) = q.orders ++ orders_of qs

abbrev pub OrderSlots : Type 0
OrderSlots = ℕ → Slot MarketOrder

abbrev pub Table : Type 0
Table = ℕ → Option ℕ

-- Each order has the side and the price of its level, and the table of orders leads to it.
abbrev pub AreOf : Side → ℤ → Table → List Item → Type 0
AreOf side price ids [] = Unit {0}
AreOf side price ids (o ∷ os) =
    ((o.side ≡ side)
      × (o.price ≡ price)
      × (o.qty < u32_mod)
      × (o.order_id < max_order_ids)
      × (ids o.order_id ≡ some o.ptr))
    × AreOf side price ids os

-- One level: a circle of orders that is not empty, to which the table of prices leads.
pub record QueueInv (side : Side) (s : OrderSlots) (table ids : Table) (q : PriceQueue)
    : Type 0 where
  pub ring : Ring in_level s q.orders
  pub first : q.level.first ≡ first_or in_level none q.orders
  pub filled : nonempty q.orders ≡ true
  pub orders : AreOf side q.level.price ids q.orders
  pub listed : table (price_to_index q.level.price) ≡ some q.level.ptr

abbrev pub AllQueues : Side → OrderSlots → Table → Table → List PriceQueue → Type 0
AllQueues side s table ids [] = Unit {0}
AllQueues side s table ids (q ∷ qs) = QueueInv side s table ids q × AllQueues side s table ids qs

pub record SideInv (side : Side) (b : MarketOrderBook) (qs : List PriceQueue) : Type 0 where
  pub levels_valid : IsValid b.orders_at_price_pool
  pub orders_valid : IsValid b.order_pool
  pub ring : Ring (on_side side) b.orders_at_price_pool.slot (levels_of qs)
  pub best : best_of side b ≡ first_or (on_side side) none (levels_of qs)
  pub sorted : IsSorted side (levels_of qs)
  pub distinct_levels : AllDistinct (ptrs (on_side side) (levels_of qs))
  pub distinct_orders : AllDistinct (ptrs in_level (orders_of qs))
  pub queues : AllQueues side b.order_pool.slot b.price_orders_at_price b.oid_to_order qs

pub levels_of-append :
    (xs ys : List PriceQueue) → levels_of (xs ++ ys) ≡ levels_of xs ++ levels_of ys
levels_of-append [] ys = refl
levels_of-append (x ∷ xs) ys = ap (λ l. x.level ∷ l) (levels_of-append xs ys)

pub orders_of-append :
    (xs ys : List PriceQueue) → orders_of (xs ++ ys) ≡ orders_of xs ++ orders_of ys
orders_of-append [] ys = refl
orders_of-append (x ∷ xs) ys =
    ap (λ l. x.orders ++ l) (orders_of-append xs ys)
    ∙ sym (append_assoc x.orders (orders_of xs) (orders_of ys))

pub or_left : (a b : Bool) → a ≡ true → (a || b) ≡ true
or_left a b e = ground (arith, e)

pub or_right : (a b : Bool) → b ≡ true → (a || b) ≡ true
or_right a b e = ground (arith, e)

module _ (side : Side) where
  pub AllQueues-append :
      (s : OrderSlots) (table ids : Table) (xs ys : List PriceQueue)
      → AllQueues side s table ids xs
      → AllQueues side s table ids ys
      → AllQueues side s table ids (xs ++ ys)
  AllQueues-append s table ids [] ys h g = g
  AllQueues-append s table ids (x ∷ xs) ys h g = (h.0, AllQueues-append s table ids xs ys h.1 g)

  pub AllQueues-split :
      (s : OrderSlots) (table ids : Table) (xs ys : List PriceQueue)
      → AllQueues side s table ids (xs ++ ys)
      → AllQueues side s table ids xs × AllQueues side s table ids ys
  AllQueues-split s table ids [] ys h = (tt, h)
  AllQueues-split s table ids (x ∷ xs) ys h =
      let (a, b) = AllQueues-split s table ids xs ys h.1 in ((h.0, a), b)

  -- Queues depend on the slots of their own orders.
  pub AllQueues-slots :
      (s s' : OrderSlots) (table ids : Table) (qs : List PriceQueue)
      → ((j : ℕ) → has j (ptrs in_level (orders_of qs)) ≡ true → s' j ≡ s j)
      → AllQueues side s table ids qs
      → AllQueues side s' table ids qs
  AllQueues-slots s s' table ids [] f h = tt
  AllQueues-slots s s' table ids (q ∷ qs) f h = (
    record {
      ring =
          Seg-frame in_level s s' _ _ q.orders
            (λ j m. f j (has-ptrs in_level j q.orders (orders_of qs) ∙ or_left _ _ m)) h.0.ring;
      first = h.0.first;
      filled = h.0.filled;
      orders = h.0.orders;
      listed = h.0.listed;
    },
    AllQueues-slots s s' table ids qs
        (λ j m. f j (has-ptrs in_level j q.orders (orders_of qs) ∙ or_right _ _ m)) h.1,
  )

  -- An entry of the table of orders that leads to none of them.
  pub AreOf-ids :
      (price : ℤ) (ids : Table) (id : ℕ) (v : Option ℕ) (os : List Item)
      → ((j : ℕ) → has j (ptrs in_level os) ≡ true → ids id ≢ some j)
      → AreOf side price ids os
      → AreOf side price (update ids id v) os
  AreOf-ids price ids id v [] f h = tt
  AreOf-ids price ids id v (o ∷ os) f h = (
    (
      h.0.0,
      h.0.1,
      h.0.2,
      h.0.3,
      update_ne ids id o.order_id v
            (λ e. f o.ptr (ground (arith, ==_self o.ptr)) (ap ids (sym e) ∙ h.0.4))
          ∙ h.0.4,
    ),
    AreOf-ids price ids id v os (λ j m. f j (ground (arith, m))) h.1,
  )

  pub AllQueues-ids :
      (s : OrderSlots) (table ids : Table) (id : ℕ) (v : Option ℕ) (qs : List PriceQueue)
      → ((j : ℕ) → has j (ptrs in_level (orders_of qs)) ≡ true → ids id ≢ some j)
      → AllQueues side s table ids qs
      → AllQueues side s table (update ids id v) qs
  AllQueues-ids s table ids id v [] f h = tt
  AllQueues-ids s table ids id v (q ∷ qs) f h = (
    record {
      ring = h.0.ring;
      first = h.0.first;
      filled = h.0.filled;
      orders =
          AreOf-ids q.level.price ids id v q.orders
            (λ j m. f j (has-ptrs in_level j q.orders (orders_of qs) ∙ or_left _ _ m)) h.0.orders;
      listed = h.0.listed;
    },
    AllQueues-ids s table ids id v qs
        (λ j m. f j (has-ptrs in_level j q.orders (orders_of qs) ∙ or_right _ _ m)) h.1,
  )

  -- An entry of the table of prices that leads to none of the levels.
  pub AllQueues-table :
      (s : OrderSlots) (table ids : Table) (i : ℕ) (v : Option ℕ) (qs : List PriceQueue)
      → ((j : ℕ) → has j (ptrs (on_side side) (levels_of qs)) ≡ true → table i ≢ some j)
      → AllQueues side s table ids qs
      → AllQueues side s (update table i v) ids qs
  AllQueues-table s table ids i v [] f h = tt
  AllQueues-table s table ids i v (q ∷ qs) f h = (
    record {
      ring = h.0.ring;
      first = h.0.first;
      filled = h.0.filled;
      orders = h.0.orders;
      listed =
          update_ne table i (price_to_index q.level.price) v (λ e.
            f q.level.ptr (ground (arith, ==_self q.level.ptr)) (ap table (sym e) ∙ h.0.listed))
          ∙ h.0.listed;
    },
    AllQueues-table s table ids i v qs (λ j m. f j (ground (arith, m))) h.1,
  )
