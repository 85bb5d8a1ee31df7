-- ===== src/Strategies.antt =====
-- trading/strategy/market_maker.h and liquidity_taker.h: what the two algorithms quote.
--
-- The features and the thresholds are floating-point numbers. Of these, the code uses whether the
-- feature is finite and the outcome of one comparison for each price; these are parameters. So is
-- `loss`, the outcome of the comparison in the check before an order. The book that gives the best
-- bid and offer is a parameter too. `none` is a run that ends in ASSERT, or in the exception of
-- `at` out of range.
pub mod Limits
pub mod Loop
pub mod Round
pub mod Tests
use yquant_system.Base.{
  ℕ, Bool, true, false, not, ◌&&◌, Option, none, some, ltb, ◌==◌, if◌then◌else◌, ◌>>=◌, assert,
}
use yquant_system.Base.Int.{ℤ, pos, ◌+ℤ◌, ◌-ℤ◌}
use yquant_system.Types.{Side, is_buy, max_symbols}
use yquant_system.Messages.{MarketUpdate}
use yquant_system.MarketOrderBook.{Bbo}
use yquant_system.ClientOrders.{RiskCfg, OrderManager, TradeEngine, move_orders}

pub record TradeEngineCfg : Type 0 where
  pub clip : ℕ
  pub risk_cfg : RiskCfg

abbrev pub has_both_sides : Bbo → Bool
has_both_sides bbo = not (bbo.bid_qty == 0) && not (bbo.ask_qty == 0)

-- OrderManager::moveOrders, with the position and the limits of the symbol.
abbrev pub quote :
    (ℕ → TradeEngineCfg) → Bool → ℕ → Option ℤ → Option ℤ → TradeEngine → Option TradeEngine
quote ticker_cfg loss ticker_id bid_price ask_price e = assert (ltb ticker_id max_symbols) (do
  o ←
      move_orders (ticker_cfg ticker_id).risk_cfg (e.position ticker_id) loss ticker_id bid_price
        ask_price (ticker_cfg ticker_id).clip e.order_manager
  some (record e { order_manager = o }))

-- `bid_far` and `ask_far`: the fair price is at least the threshold away from the bid and the ask.
unfoldable pub maker_on_order_book_update :
    (ℕ → TradeEngineCfg) → Bool → Bool → Bool → Bool → ℕ → Bbo → TradeEngine → Option TradeEngine
maker_on_order_book_update ticker_cfg loss finite bid_far ask_far ticker_id bbo e =
    if has_both_sides bbo && finite
    then quote ticker_cfg loss ticker_id
        (some (bbo.bid_price -ℤ (if bid_far then pos 0 else pos 1)))
        (some (bbo.ask_price +ℤ (if ask_far then pos 0 else pos 1))) e
    else some e

-- `aggressive`: the ratio of the trade to the quantity it met is at least the threshold.
unfoldable pub taker_on_trade_update :
    (ℕ → TradeEngineCfg)
    → Bool
    → Bool
    → Bool
    → MarketUpdate
    → Bbo
    → TradeEngine
    → Option TradeEngine
taker_on_trade_update ticker_cfg loss finite aggressive u bbo e =
    if has_both_sides bbo && finite
    then assert (ltb u.symbol_id max_symbols) (
        if aggressive
        then (if is_buy u.side
            then quote ticker_cfg loss u.symbol_id (some bbo.ask_price) none e
            else quote ticker_cfg loss u.symbol_id none (some bbo.bid_price) e)
        else some e)
    else some e
