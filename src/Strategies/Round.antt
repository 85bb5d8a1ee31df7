-- ===== src/Strategies/Round.antt =====
-- trading/strategy/trade_engine.cpp: no round of the trade engine takes a position past its limit.
use mathlib.Core.Option.{some-injective}
use yquant_system.Base.{
  ℕ, ◌<◌, ◌≡◌, Bool, true, false, some, List, [], ◌∷◌, sym, subst, ltb, assert-passed, bind-passed,
  ◌∙◌, refl,
}
use yquant_system.Types.{max_symbols}
use yquant_system.Messages.{ClientResponse, MarketUpdate}
use yquant_system.ClientOrders.{TradeEngine, engine_on_order_update}
use yquant_system.ClientOrders.Fills.{
  EngineWithin, IsGenuineAs, engine_on_order_update-EngineWithin,
}
use yquant_system.MarketOrderBook.{Bbo}
use yquant_system.MarketOrderBook.Updates.{
  Notice, silent, order_book_update, trade_update, on_market_update,
}
use yquant_system.Strategies.Limits.{
  max_of, maker_on_order_book_update-EngineWithin, taker_on_trade_update-EngineWithin,
}
use yquant_system.Strategies.Loop.{
  AlgoType, maker, taker, Judgement, EngineState, TickerCfg, notify, process_update,
  process_updates, process_responses, run_once,
}

-- Each response is for a known symbol, and fits the orders that the engine has when it comes.
abbrev pub AllGenuine : List ClientResponse → TradeEngine → Type 0
AllGenuine [] e = Unit {0}
AllGenuine (r ∷ rs) e =
    (r.symbol_id < max_symbols)
    × IsGenuineAs r.type r (e.order_manager.ticker_side_order r.symbol_id)
    × ((e' : TradeEngine) → engine_on_order_update r e ≡ some e' → AllGenuine rs e')

-- All responses are taken.
process_responses-EngineWithin :
    (max : ℕ → ℕ) (rs : List ClientResponse) (e : TradeEngine)
    → AllGenuine rs e
    → EngineWithin max e
    → (e' : TradeEngine) × (process_responses rs e ≡ some e') × EngineWithin max e'
unfolding process_responses
process_responses-EngineWithin max [] e g h = (e, refl, h)
process_responses-EngineWithin max (r ∷ rs) e (known, fits, later) h =
    let (e1, ran, h1) = engine_on_order_update-EngineWithin max r e known fits h in
    let (e2, ran2, h2) = process_responses-EngineWithin max rs e1 (later e1 ran) h1 in
    (e2, rw ran ran2, h2)

module _ (cfg : TickerCfg) where
  same :
      (e e' : TradeEngine)
      → EngineWithin (max_of cfg) e
      → some e ≡ some e'
      → EngineWithin (max_of cfg) e'
  same e e' h run = subst (EngineWithin (max_of cfg)) (some-injective e e' run) h

  notify-EngineWithin :
      (algo : AlgoType) (j : Judgement) (stopping : Bool) (u : MarketUpdate) (n : Notice)
      (bbo : Bbo) (e e' : TradeEngine)
      → EngineWithin (max_of cfg) e
      → notify algo cfg j stopping u n bbo e ≡ some e'
      → EngineWithin (max_of cfg) e'
  notify-EngineWithin algo j stopping u silent bbo e e' h run = same e e' h run
  notify-EngineWithin algo j true u order_book_update bbo e e' h run = same e e' h run
  notify-EngineWithin maker j false u order_book_update bbo e e' h run =
      maker_on_order_book_update-EngineWithin cfg j.loss j.finite j.bid_far j.ask_far u.symbol_id
        bbo e e' h run
  notify-EngineWithin taker j false u order_book_update bbo e e' h run = same e e' h run
  notify-EngineWithin algo j true u trade_update bbo e e' h run = same e e' h run
  notify-EngineWithin maker j false u trade_update bbo e e' h run = same e e' h run
  notify-EngineWithin taker j false u trade_update bbo e e' h run =
      taker_on_trade_update-EngineWithin cfg j.loss j.finite j.aggressive u bbo e e' h run

  process_update-EngineWithin :
      (algo : AlgoType) (j : Judgement) (u : MarketUpdate) (s s' : EngineState)
      → EngineWithin (max_of cfg) s.trade_engine
      → process_update algo cfg j u s ≡ some s'
      → EngineWithin (max_of cfg) s'.trade_engine
  unfolding process_update
  process_update-EngineWithin algo j u s s' h run =
      let (_, r1) = assert-passed (ltb u.symbol_id max_symbols) _ s' run in
      let (bn, _, r2) =
        bind-passed (on_market_update u (s.ticker_order_book u.symbol_id)) _ s' r1 in
      let (e, told, r3) =
        bind-passed (notify algo cfg j s.stopping u bn.1 bn.0.bbo s.trade_engine) _ s' r2 in
      subst (λ t. EngineWithin (max_of cfg) t.trade_engine) (some-injective _ s' r3)
        (notify-EngineWithin algo j s.stopping u bn.1 bn.0.bbo s.trade_engine e h told)

  process_updates-EngineWithin :
      (algo : AlgoType) (us : List (Judgement × MarketUpdate)) (s s' : EngineState)
      → EngineWithin (max_of cfg) s.trade_engine
      → process_updates algo cfg us s ≡ some s'
      → EngineWithin (max_of cfg) s'.trade_engine
  unfolding process_updates
  process_updates-EngineWithin algo [] s s' h run =
      subst (λ t. EngineWithin (max_of cfg) t.trade_engine) (some-injective s s' run) h
  process_updates-EngineWithin algo (x ∷ xs) s s' h run =
      let (s1, first, later) =
        bind-passed (process_update algo cfg x.0 x.1 s) (process_updates algo cfg xs) s' run in
      process_updates-EngineWithin algo xs s1 s'
        (process_update-EngineWithin algo x.0 x.1 s s1 h first) later

-- When every symbol is within its limit, and each response in the queue is for a known symbol and,
-- if it accepts or fills an order, is about one that is open when it comes and leaves of it what
-- was not filled, then after a round of the trade engine with the market maker or the liquidity
-- taker that returns, whatever market updates it passed to the books and whatever the features
-- were, every symbol is within its limit.
pub run_once-EngineWithin :
    (algo : AlgoType) (cfg : TickerCfg) (rs : List ClientResponse)
    (us : List (Judgement × MarketUpdate)) (s s' : EngineState)
    → AllGenuine rs s.trade_engine
    → EngineWithin (max_of cfg) s.trade_engine
    → run_once algo cfg rs us s ≡ some s'
    → EngineWithin (max_of cfg) s'.trade_engine
unfolding run_once
run_once-EngineWithin algo cfg rs us s s' genuine h run =
    let (e, took, later) = bind-passed (process_responses rs s.trade_engine) _ s' run in
    let (e1, took1, h1) = process_responses-EngineWithin (max_of cfg) rs s.trade_engine genuine h in
    process_updates-EngineWithin cfg algo us (record s { trade_engine = e }) s'
      (subst (EngineWithin (max_of cfg)) (some-injective e1 e (sym took1 ∙ took)) h1) later
