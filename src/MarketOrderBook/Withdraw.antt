-- ===== src/MarketOrderBook/Withdraw.antt =====
-- trading/strategy/market_order_book.cpp: what `onMarketUpdate` does for a canceled order.
use yquant_system.Base.{
  ◌≡◌, true, false, not, some, none, List, [], ◌∷◌, ◌++◌, refl, sym, ◌∙◌, ap, nonempty, lt→ltb, ltb,
  subst,
}
use yquant_system.Base.Int.{ℤ}
use yquant_system.Types.{Side, max_order_ids}
use yquant_system.Messages.{MarketUpdateType, MarketUpdate}
use yquant_system.MarketOrderBook.{MarketOrderBook, is_worse}
use yquant_system.MarketOrderBook.Updates.{
  cancel_update, remove_order, on_market_update, on_update_of, is_clear,
}
use yquant_system.MarketOrderBook.Links.{first_or}
use yquant_system.MarketOrderBook.Levels.{Level}
use yquant_system.MarketOrderBook.Order.{has_side}
use yquant_system.MarketOrderBook.Orders.{Item, in_level}
use yquant_system.MarketOrderBook.Queues.{PriceQueue, SideInv}
use yquant_system.MarketOrderBook.Cleared.{Cleared}
use yquant_system.MarketOrderBook.Focus.{Focus, focus}
use yquant_system.MarketOrderBook.Relead.{with_first}
use yquant_system.MarketOrderBook.Depart.{remove_order-Departed}
use yquant_system.MarketOrderBook.Close.{remove_order-Closed}
use yquant_system.MarketOrderBook.Best.{
  price_of, quantity_of, IsQuoted, reaches_best, PublishedAs, publish_change-PublishedAs,
}
use yquant_system.MarketOrderBook.Apply.{published}
use yquant_system.MarketOrderBook.Behind.{is_worse_self}

-- What stays of a queue; an empty one goes.
abbrev pub remain : Level → List Item → List PriceQueue
remain l [] = []
remain l (o ∷ os) =
    record { level = with_first l (first_or in_level none (o ∷ os)); orders = o ∷ os } ∷ []

-- A queue that is not the first leaves the quote as it is.
below_without :
    (side : Side) (price : ℤ) (front : List PriceQueue) (q : PriceQueue)
    (rest back : List PriceQueue)
    → price ≡ q.level.price
    → reaches_best side price (front ++ q ∷ back) ≡ false
    → (price_of (front ++ (rest ++ back)) ≡ price_of (front ++ q ∷ back))
      × (quantity_of (front ++ (rest ++ back)) ≡ quantity_of (front ++ q ∷ back))
below_without side price [] q rest back e h =
    absurd
      (cc (sym h ∙ ap not (ap (λ r. is_worse side price r) (sym e) ∙ is_worse_self side price)))
below_without side price (w ∷ front) q rest back e h = (refl, refl)

module _ (side : Side) (u : MarketUpdate) (b : MarketOrderBook) (front : List PriceQueue)
    (l : Level) (os : List Item) (z : Item) (ps : List Item) (back : List PriceQueue)
    (sided : has_side side ≡ true) (on_its_side : u.side ≡ side)
    (inv : SideInv side b (front ++ record { level = l; orders = os ++ z ∷ ps } ∷ back))
    (quoted : IsQuoted side b.bbo (front ++ record { level = l; orders = os ++ z ∷ ps } ∷ back))
    (cancels : u.type ≡ MarketUpdateType.cancel) (found : u.order_id ≡ z.order_id)
    (at_its_price : u.price ≡ l.price) where
  abbrev q : PriceQueue
  q = record { level = l; orders = os ++ z ∷ ps }

  at : Focus side b front l os z ps back
  at = focus side b front l os z ps back inv

  -- The order is found, and removed.
  cancel_update-eq : cancel_update u b ≡ remove_order z.ptr b
  unfolding cancel_update
  cancel_update-eq =
      rw
        (
          ap (λ i. ltb i max_order_ids) found ∙ lt→ltb z.order_id max_order_ids at.of_z.3,
          ap b.oid_to_order found ∙ at.of_z.4,
        )
        refl

  removed :
      (rest : List Item)
      → os ++ ps ≡ rest
      → (b' : MarketOrderBook) × (remove_order z.ptr b ≡ some b')
        × (b'.bbo ≡ b.bbo)
        × Cleared b l z rest b'
        × SideInv side b' (front ++ (remain l rest ++ back))
  removed (o ∷ rest) e =
      let (b', run, same, cleared, inv1) =
        remove_order-Departed side b front l os z ps back inv (ap nonempty e) in
      (
        b',
        run,
        same,
        subst (λ r. Cleared b l z r b') e cleared,
        subst
            (λ r. SideInv side b' (
              front
              ++ record { level = with_first l (first_or in_level none r); orders = r } ∷ back))
            e inv1,
      )
  removed [] e = both os ps e inv
    where
      both :
          (os ps : List Item)
          → os ++ ps ≡ []
          → SideInv side b (front ++ record { level = l; orders = os ++ z ∷ ps } ∷ back)
          → (b' : MarketOrderBook) × (remove_order z.ptr b ≡ some b')
            × (b'.bbo ≡ b.bbo)
            × Cleared b l z [] b'
            × SideInv side b' (front ++ back)
      both [] [] f i = remove_order-Closed side b front l z back i
      both [] (p ∷ ps) f i = absurd (cc)
      both (o ∷ os) ps f i = absurd (cc)

  -- On a side of the client's book that stands for queues of orders by price and whose quote is
  -- right, onMarketUpdate of a CANCEL of an order of that side, at the price of its queue, ends
  -- with a notice of a book update: afterwards the order has left its queue, a queue without an
  -- order is gone, and the other orders and queues keep their order; the entry of the order in the
  -- table of orders is cleared and its slot is free, the entry of its price leads to its level or,
  -- when the queue is gone, to none, and then the level's slot is free; every other entry of both
  -- tables is as before; the circles of the side's orders and levels and the order of its levels
  -- hold, both pools are valid, and the quote of the side is the price of its best level with the
  -- 32-bit sum of the quantities there, or 0 and 0 for no level.
  pub on_market_update-Canceled :
      PublishedAs
        (on_market_update u b)
        side
        (front ++ (remain l (os ++ ps) ++ back))
        (Cleared b l z (os ++ ps))
  unfolding on_update_of
  on_market_update-Canceled =
      let (b1, run, same, cleared, inv1) = removed (os ++ ps) refl in
      let new = front ++ (remain l (os ++ ps) ++ back) in
      subst (λ r. PublishedAs r side new (Cleared b l z (os ++ ps)))
        (sym (
          published side u b (front ++ q ∷ back) sided on_its_side inv quoted (cancel_update u)
            (ap is_clear cancels) (λ bid ask. rw cancels refl)))
        (publish_change-PublishedAs side u b (front ++ q ∷ back) new (cancel_update u) b1 sided
          (cancel_update-eq ∙ run) inv1 same quoted
          (below_without side u.price front q (remain l (os ++ ps)) back at_its_price)
          (Cleared b l z (os ++ ps)) (λ bbo. cleared) cleared
          (reaches_best side u.price (front ++ q ∷ back)) refl)
