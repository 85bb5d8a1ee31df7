-- ===== src/MarketOrderBook/Best.antt =====
-- trading/strategy/market_order_book.h and market_order_book.cpp: the best bid and offer after an update
-- of one side.
use yquant_system.Base.{
  ℕ, ◌%◌, ◌≡◌, Bool, true, false, not, ◌&&◌, Option, some, List, [], ◌∷◌, arith, refl, sym, ◌∙◌, ap,
  if◌then◌else◌,
}
use yquant_system.Base.Int.{ℤ, pos, leb_ℤ}
use yquant_system.Types.{Side, buy, sell, no_side, is_buy, is_sell, u32_mod}
use yquant_system.Messages.{MarketUpdate}
use yquant_system.MemPool.Free.{load-eq}
use yquant_system.MarketOrderBook.{MarketOrderBook, Bbo, best_of, is_worse}
use yquant_system.MarketOrderBook.Updates.{
  Notice, order_book_update, best_quote, update_bid, update_ask, update_bbo, bid_updated,
  ask_updated, publish_change, is_clear,
}
use yquant_system.MarketOrderBook.Links.{AllDistinct-split}
use yquant_system.MarketOrderBook.Levels.{Level}
use yquant_system.MarketOrderBook.Order.{has_side}
use yquant_system.MarketOrderBook.Orders.{Item, in_level}
use yquant_system.MarketOrderBook.Quote.{sum_quantities, quantity_from-eq}
use yquant_system.MarketOrderBook.Queues.{PriceQueue, orders_of, SideInv}

-- The price and the quantity of the best level; an empty side has 0 of both.
abbrev pub price_of : List PriceQueue → ℤ
price_of [] = pos 0
price_of (q ∷ qs) = q.level.price

abbrev pub quantity_of : List PriceQueue → ℕ
quantity_of [] = 0
quantity_of (q ∷ qs) = sum_quantities q.orders % u32_mod

abbrev pub quoted_price : Side → Bbo → ℤ
quoted_price side bbo = if is_buy side then bbo.bid_price else bbo.ask_price

abbrev pub quoted_quantity : Side → Bbo → ℕ
quoted_quantity side bbo = if is_buy side then bbo.bid_qty else bbo.ask_qty

-- The book quotes the best level of the side.
abbrev pub IsQuoted : Side → Bbo → List PriceQueue → Type 0
IsQuoted side bbo qs =
    (quoted_price side bbo ≡ price_of qs) × (quoted_quantity side bbo ≡ quantity_of qs)

-- No level, or a price that is not less aggressive than the best one.
abbrev pub reaches_best : Side → ℤ → List PriceQueue → Bool
reaches_best side price [] = true
reaches_best side price (q ∷ qs) = not (is_worse side price q.level.price)

quote_queue :
    (side : Side) (b : MarketOrderBook) (l : Level) (os : List Item) (qs : List PriceQueue)
    → SideInv side b (record { level = l; orders = os } ∷ qs)
    → best_quote b.orders_at_price_pool b.order_pool (best_of side b)
      ≡ some (l.price, sum_quantities os % u32_mod)
unfolding best_quote
quote_queue side b l [] qs inv = absurd (cc (inv.queues.0.filled))
quote_queue side b l (x ∷ xs) qs inv =
    let q = inv.queues.0 in
    rw
      (
        inv.best,
        load-eq b.orders_at_price_pool l.ptr _ inv.ring.0,
        q.first,
        quantity_from-eq b.order_pool x xs inv.orders_valid
            (AllDistinct-split in_level (x ∷ xs) (orders_of qs) inv.distinct_orders).0 q.ring
            q.orders.0.2,
      )
      refl

best_quote-eq :
    (side : Side) (b : MarketOrderBook) (qs : List PriceQueue)
    → SideInv side b qs
    → best_quote b.orders_at_price_pool b.order_pool (best_of side b)
      ≡ some (price_of qs, quantity_of qs)
best_quote-eq side b [] inv = unfold best_quote in rw inv.best refl
best_quote-eq side b (q ∷ qs) inv = quote_queue side b q.level q.orders qs inv

not_worse-buy : (a b : ℤ) → leb_ℤ b a ≡ not (is_worse buy a b)
not_worse-buy a b = ground arith

not_worse-sell : (a b : ℤ) → leb_ℤ a b ≡ not (is_worse sell a b)
not_worse-sell a b = ground arith

-- Which sides of the quote an update refreshes.
pub updated_sides :
    (side : Side) (u : MarketUpdate) (b : MarketOrderBook) (qs : List PriceQueue)
    → has_side side ≡ true
    → u.side ≡ side
    → is_clear u.type ≡ false
    → SideInv side b qs
    → (bid_updated u b ≡ some (is_buy side && reaches_best side u.price qs))
      × (ask_updated u b ≡ some (is_sell side && reaches_best side u.price qs))
unfolding bid_updated ask_updated
updated_sides buy u b [] s e c inv = (rw (c, e, inv.best) refl, rw (c, e) refl)
updated_sides buy u b (q ∷ qs) s e c inv = (
  rw (c, e, inv.best, load-eq b.orders_at_price_pool q.level.ptr _ inv.ring.0)
      (ap some (not_worse-buy u.price q.level.price)),
  rw (c, e) refl,
)
updated_sides sell u b [] s e c inv = (rw (c, e) refl, rw (c, e, inv.best) refl)
updated_sides sell u b (q ∷ qs) s e c inv = (
  rw (c, e) refl,
  rw (c, e, inv.best, load-eq b.orders_at_price_pool q.level.ptr _ inv.ring.0)
      (ap some (not_worse-sell u.price q.level.price)),
)
updated_sides no_side u b qs s e c inv = absurd (cc)

-- The quote is not part of what holds of a side.
SideInv-bbo :
    (side : Side) (b : MarketOrderBook) (qs : List PriceQueue) (bbo : Bbo)
    → SideInv side b qs
    → SideInv side (record b { bbo = bbo }) qs
SideInv-bbo side b qs bbo inv = record {
  levels_valid = inv.levels_valid;
  orders_valid = inv.orders_valid;
  ring = inv.ring;
  best = same side ∙ inv.best;
  sorted = inv.sorted;
  distinct_levels = inv.distinct_levels;
  distinct_orders = inv.distinct_orders;
  queues = inv.queues;
}
  where
    same : (s : Side) → best_of s (record b { bbo = bbo }) ≡ best_of s b
    same buy = refl
    same sell = refl
    same no_side = refl

-- The quote with another price and quantity of one side.
abbrev pub requote : Side → ℤ → ℕ → Bbo → Bbo
requote side price qty bbo =
    if is_buy side
    then record bbo { bid_price = price; bid_qty = qty }
    else record bbo { ask_price = price; ask_qty = qty }

refresh :
    (side : Side) (r : Bool) (b : MarketOrderBook) (qs : List PriceQueue)
    → has_side side ≡ true
    → SideInv side b qs
    → update_bbo (is_buy side && r) (is_sell side && r) b
      ≡ some (if r then record b { bbo = requote side (price_of qs) (quantity_of qs) b.bbo } else b)
unfolding update_bbo update_bid update_ask
refresh buy false b qs s inv = refl
refresh buy true b qs s inv = rw (best_quote-eq buy b qs inv) refl
refresh sell false b qs s inv = refl
refresh sell true b qs s inv = rw (best_quote-eq sell b qs inv) refl
refresh no_side r b qs s inv = absurd (cc)

requote-IsQuoted :
    (side : Side) (bbo : Bbo) (qs : List PriceQueue)
    → IsQuoted side (requote side (price_of qs) (quantity_of qs) bbo) qs
requote-IsQuoted buy bbo qs = (refl, refl)
requote-IsQuoted sell bbo qs = (refl, refl)
requote-IsQuoted no_side bbo qs = (refl, refl)

-- What a change of one side publishes: the side holds the new queues and is quoted.
abbrev pub Published : Option (MarketOrderBook × Notice) → Side → List PriceQueue → Type 0
Published run side qs =
    (b : MarketOrderBook) × (run ≡ some (b, order_book_update))
    × SideInv side b qs
    × IsQuoted side b.bbo qs

-- And the book has the property `P`.
abbrev pub PublishedAs :
    Option (MarketOrderBook × Notice) → Side → List PriceQueue → (MarketOrderBook → Type 0) → Type 0
PublishedAs run side qs P =
    (b : MarketOrderBook) × (run ≡ some (b, order_book_update))
    × SideInv side b qs
    × IsQuoted side b.bbo qs
    × P b

module _ (side : Side) (u : MarketUpdate) (b : MarketOrderBook) (qs qs' : List PriceQueue)
    (change : MarketOrderBook → Option MarketOrderBook) (b1 : MarketOrderBook)
    (sided : has_side side ≡ true) (changed : change b ≡ some b1) (inv1 : SideInv side b1 qs')
    (same_quote : b1.bbo ≡ b.bbo) (quoted : IsQuoted side b.bbo qs)
    (below : reaches_best side u.price qs ≡ false
      → (price_of qs' ≡ price_of qs) × (quantity_of qs' ≡ quantity_of qs)) where
  -- A property that the change gives and that does not depend on the quote stays.
  pub publish_change-PublishedAs :
      (P : MarketOrderBook → Type 0)
      → ((bbo : Bbo) → P (record b1 { bbo = bbo }))
      → P b1
      → (r : Bool) → reaches_best side u.price qs ≡ r
      → PublishedAs (publish_change (is_buy side && r) (is_sell side && r) change b) side qs' P
  unfolding publish_change
  publish_change-PublishedAs P requoted kept true e =
      let bbo = requote side (price_of qs') (quantity_of qs') b1.bbo in
      (
        record b1 { bbo = bbo },
        rw (changed, refresh side true b1 qs' sided inv1) refl,
        SideInv-bbo side b1 qs' bbo inv1,
        requote-IsQuoted side b1.bbo qs',
        requoted bbo,
      )
  publish_change-PublishedAs P requoted kept false e =
      let same = below e in
      (
        b1,
        rw (changed, refresh side false b1 qs' sided inv1) refl,
        inv1,
        (
          ap (quoted_price side) same_quote ∙ quoted.0 ∙ sym same.0,
          ap (quoted_quantity side) same_quote ∙ quoted.1 ∙ sym same.1,
        ),
        kept,
      )

  pub publish_change-Published :
      (r : Bool)
      → reaches_best side u.price qs ≡ r
      → Published (publish_change (is_buy side && r) (is_sell side && r) change b) side qs'
  publish_change-Published r e =
      let (b2, run, inv2, quoted2, _) =
        publish_change-PublishedAs (λ _. Unit {0}) (λ _. tt) tt r e in
      (b2, run, inv2, quoted2)
