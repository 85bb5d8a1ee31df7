-- ===== src/Strategies/Loop.antt =====
-- trading/strategy/trade_engine.cpp: how a trade engine takes responses and market updates, and passes
-- changes of its books on to its algorithm.
--
-- What the code computes with floating-point numbers for one event (the features and the two checks)
-- is a `Judgement`. `AlgoType` has the two types that trade. The queues stand as the lists of what
-- they hold.
use yquant_system.Base.{
  ℕ, Bool, Option, some, List, [], ◌∷◌, ltb, if◌then◌else◌, ◌>>=◌, assert, update,
}
use yquant_system.Types.{max_symbols}
use yquant_system.Messages.{ClientResponse, MarketUpdate}
use yquant_system.ClientOrders.{TradeEngine, engine_on_order_update}
use yquant_system.MarketOrderBook.{Bbo, MarketOrderBook}
use yquant_system.MarketOrderBook.Updates.{
  Notice, silent, order_book_update, trade_update, on_market_update,
}
use yquant_system.Strategies.{TradeEngineCfg, maker_on_order_book_update, taker_on_trade_update}

pub data AlgoType : Type 0 where
  maker taker : AlgoType

pub record Judgement : Type 0 where
  pub loss : Bool
  pub finite : Bool
  pub bid_far : Bool
  pub ask_far : Bool
  pub aggressive : Bool

-- The engine with its books, and whether it is about to stop.
pub record EngineState : Type 0 where
  pub trade_engine : TradeEngine
  pub ticker_order_book : ℕ → MarketOrderBook
  pub stopping : Bool

abbrev pub TickerCfg : Type 0
TickerCfg = ℕ → TradeEngineCfg

-- The taker has nothing to do for a change of a book, and the maker nothing for a trade.
abbrev pub algo_on_order_book_update :
    AlgoType → TickerCfg → Judgement → ℕ → Bbo → TradeEngine → Option TradeEngine
algo_on_order_book_update maker cfg j ticker_id bbo e =
    maker_on_order_book_update cfg j.loss j.finite j.bid_far j.ask_far ticker_id bbo e
algo_on_order_book_update taker cfg j ticker_id bbo e = some e

abbrev pub algo_on_trade_update :
    AlgoType → TickerCfg → Judgement → MarketUpdate → Bbo → TradeEngine → Option TradeEngine
algo_on_trade_update maker cfg j u bbo e = some e
algo_on_trade_update taker cfg j u bbo e =
    taker_on_trade_update cfg j.loss j.finite j.aggressive u bbo e

-- The calls of the algorithm in `onOrderBookUpdate` and `onTradeUpdate`.
abbrev pub engine_on_order_book_update :
    AlgoType → TickerCfg → Judgement → Bool → ℕ → Bbo → TradeEngine → Option TradeEngine
engine_on_order_book_update algo cfg j stopping ticker_id bbo e =
    if stopping then some e else algo_on_order_book_update algo cfg j ticker_id bbo e

abbrev pub engine_on_trade_update :
    AlgoType → TickerCfg → Judgement → Bool → MarketUpdate → Bbo → TradeEngine → Option TradeEngine
engine_on_trade_update algo cfg j stopping u bbo e =
    if stopping then some e else algo_on_trade_update algo cfg j u bbo e

-- What the engine does when a book tells it of an update.
abbrev pub notify :
    AlgoType
    → TickerCfg
    → Judgement
    → Bool
    → MarketUpdate
    → Notice
    → Bbo
    → TradeEngine
    → Option TradeEngine
notify algo cfg j stopping u silent bbo e = some e
notify algo cfg j stopping u order_book_update bbo e =
    engine_on_order_book_update algo cfg j stopping u.symbol_id bbo e
notify algo cfg j stopping u trade_update bbo e = engine_on_trade_update algo cfg j stopping u bbo e

-- The body of the loop over market updates.
unfoldable pub process_update :
    AlgoType → TickerCfg → Judgement → MarketUpdate → EngineState → Option EngineState
process_update algo cfg j u s = assert (ltb u.symbol_id max_symbols) (do
  (book, notice) ← on_market_update u (s.ticker_order_book u.symbol_id)
  e ← notify algo cfg j s.stopping u notice book.bbo s.trade_engine
  some (record s {
    trade_engine = e;
    ticker_order_book = update s.ticker_order_book u.symbol_id book;
  }))

unfoldable pub process_updates :
    AlgoType → TickerCfg → List (Judgement × MarketUpdate) → EngineState → Option EngineState
process_updates algo cfg [] s = some s
process_updates algo cfg (x ∷ xs) s =
    process_update algo cfg x.0 x.1 s >>= process_updates algo cfg xs

unfoldable pub process_responses : List ClientResponse → TradeEngine → Option TradeEngine
process_responses [] e = some e
process_responses (r ∷ rs) e = engine_on_order_update r e >>= process_responses rs

-- One round of the outer loop of `run`.
unfoldable pub run_once :
    AlgoType
    → TickerCfg
    → List ClientResponse
    → List (Judgement × MarketUpdate)
    → EngineState
    → Option EngineState
run_once algo cfg rs us s = do
  e ← process_responses rs s.trade_engine
  process_updates algo cfg us (record s { trade_engine = e })
