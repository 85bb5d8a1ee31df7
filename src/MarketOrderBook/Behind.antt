-- ===== src/MarketOrderBook/Behind.antt =====
-- trading/strategy/market_order_book.h: a level that is not the best does not change the quote.
use yquant_system.Base.{◌≡◌, false, not, List, [], ◌∷◌, ◌++◌, arith, refl, sym, ◌∙◌, ap}
use yquant_system.Base.Int.{ℤ}
use yquant_system.Types.{Side, buy, sell, no_side}
use yquant_system.MemPool.{MemPool}
use yquant_system.MarketOrderBook.{MarketOrder, MarketOrderBook, best_of, is_worse}
use yquant_system.MarketOrderBook.Levels.{Level}
use yquant_system.MarketOrderBook.Orders.{Item}
use yquant_system.MarketOrderBook.Queues.{PriceQueue}
use yquant_system.MarketOrderBook.Best.{price_of, quantity_of, reaches_best}

pub best_of-orders :
    (side : Side) (p : MemPool MarketOrder) (b : MarketOrderBook)
    → best_of side (record b { order_pool = p }) ≡ best_of side b
best_of-orders buy p b = refl
best_of-orders sell p b = refl
best_of-orders no_side p b = refl

-- A price is not less aggressive than itself.
pub is_worse_self : (side : Side) (price : ℤ) → is_worse side price price ≡ false
is_worse_self buy price = ground arith
is_worse_self sell price = ground arith
is_worse_self no_side price = refl

-- An order that does not reach the best level leaves the quote as it is.
pub below_behind :
    (side : Side) (price : ℤ) (front : List PriceQueue) (l : Level) (os os' : List Item)
    (back : List PriceQueue)
    → price ≡ l.price
    → reaches_best side price (front ++ record { level = l; orders = os } ∷ back) ≡ false
    → (price_of (front ++ record { level = l; orders = os' } ∷ back)
        ≡ price_of (front ++ record { level = l; orders = os } ∷ back))
      × (quantity_of (front ++ record { level = l; orders = os' } ∷ back)
          ≡ quantity_of (front ++ record { level = l; orders = os } ∷ back))
below_behind side price [] l os os' back e h =
    absurd
      (cc (sym h ∙ ap not (ap (λ r. is_worse side price r) (sym e) ∙ is_worse_self side price)))
below_behind side price (w ∷ front) l os os' back e h = (refl, refl)
