-- ===== src/Strategies/Limits.antt =====
-- trading/strategy/market_maker.h and liquidity_taker.h: no algorithm takes a position past its limit.
use mathlib.Core.Option.{some-injective}
use yquant_system.Base.{
  ℕ, ◌≡◌, Bool, true, false, Option, none, some, sym, subst, ltb, ◌==◌, ◌&&◌, if◌then◌else◌,
  Bool-cases, inl, inr, assert-passed, bind-passed, ==→eq, ==→ne,
}
use yquant_system.Base.Int.{ℤ, pos, ◌+ℤ◌, ◌-ℤ◌}
use yquant_system.Types.{is_buy, max_symbols}
use yquant_system.Messages.{MarketUpdate}
use yquant_system.ClientOrders.{TradeEngine, move_orders}
use yquant_system.ClientOrders.Risk.{IsWithin, move_orders-Quoted}
use yquant_system.ClientOrders.Fills.{EngineWithin}
use yquant_system.MarketOrderBook.{Bbo}
use yquant_system.Strategies.{
  TradeEngineCfg, has_both_sides, quote, maker_on_order_book_update, taker_on_trade_update,
}

abbrev pub max_of : (ℕ → TradeEngineCfg) → ℕ → ℕ
max_of ticker_cfg symbol = (ticker_cfg symbol).risk_cfg.max_position

quote-EngineWithin :
    (ticker_cfg : ℕ → TradeEngineCfg) (loss : Bool) (ticker_id : ℕ) (bid_price ask_price : Option ℤ)
    (e e' : TradeEngine)
    → EngineWithin (max_of ticker_cfg) e
    → quote ticker_cfg loss ticker_id bid_price ask_price e ≡ some e'
    → EngineWithin (max_of ticker_cfg) e'
quote-EngineWithin ticker_cfg loss ticker_id bid_price ask_price e e' h run =
    let cfg = ticker_cfg ticker_id in
    let (_, r1) = assert-passed (ltb ticker_id max_symbols) _ e' run in
    let (o, ran, r2) =
      bind-passed
        (move_orders cfg.risk_cfg (e.position ticker_id) loss ticker_id bid_price ask_price cfg.clip
          e.order_manager)
        (λ o. some (record e { order_manager = o })) e' r1 in
    let (within, others) =
      move_orders-Quoted cfg.risk_cfg (e.position ticker_id) loss ticker_id bid_price ask_price
        cfg.clip e.order_manager o (h ticker_id) ran in
    subst (EngineWithin (max_of ticker_cfg)) (some-injective (record e { order_manager = o }) e' r2)
      (λ symbol. elim (Bool-cases (symbol == ticker_id)) [
        | inl t ↦
            subst (λ s. IsWithin (max_of ticker_cfg s) (e.position s) (o.ticker_side_order s))
              (sym (==→eq symbol ticker_id t)) within
        | inr f ↦
            subst (IsWithin (max_of ticker_cfg symbol) (e.position symbol))
              (sym (others symbol (==→ne symbol ticker_id f))) (h symbol)
      ])

-- When every symbol is within its limit and the market maker's handling of a change of a book
-- returns, every symbol is within its limit after it.
pub maker_on_order_book_update-EngineWithin :
    (ticker_cfg : ℕ → TradeEngineCfg) (loss finite bid_far ask_far : Bool) (ticker_id : ℕ)
    (bbo : Bbo) (e e' : TradeEngine)
    → EngineWithin (max_of ticker_cfg) e
    → maker_on_order_book_update ticker_cfg loss finite bid_far ask_far ticker_id bbo e ≡ some e'
    → EngineWithin (max_of ticker_cfg) e'
unfolding maker_on_order_book_update
maker_on_order_book_update-EngineWithin ticker_cfg loss finite bid_far ask_far ticker_id bbo e e' h
      run =
    elim (Bool-cases (has_both_sides bbo && finite)) [
      | inr idle ↦ subst (EngineWithin (max_of ticker_cfg)) (some-injective e e' (rw idle at run)) h
      | inl quotes ↦
          quote-EngineWithin ticker_cfg loss ticker_id
            (some (bbo.bid_price -ℤ (if bid_far then pos 0 else pos 1)))
            (some (bbo.ask_price +ℤ (if ask_far then pos 0 else pos 1))) e e' h (rw quotes at run)
    ]

-- When every symbol is within its limit and the liquidity taker's handling of a trade returns,
-- every symbol is within its limit after it.
pub taker_on_trade_update-EngineWithin :
    (ticker_cfg : ℕ → TradeEngineCfg) (loss finite aggressive : Bool) (u : MarketUpdate) (bbo : Bbo)
    (e e' : TradeEngine)
    → EngineWithin (max_of ticker_cfg) e
    → taker_on_trade_update ticker_cfg loss finite aggressive u bbo e ≡ some e'
    → EngineWithin (max_of ticker_cfg) e'
unfolding taker_on_trade_update
taker_on_trade_update-EngineWithin ticker_cfg loss finite aggressive u bbo e e' h run =
    elim (Bool-cases (has_both_sides bbo && finite)) [
      | inr idle ↦ subst (EngineWithin (max_of ticker_cfg)) (some-injective e e' (rw idle at run)) h
      | inl looks ↦
          let (_, r1) = assert-passed (ltb u.symbol_id max_symbols) _ e' (rw looks at run) in
          taken aggressive (is_buy u.side) r1
    ]
  where
    taken :
        (trades bought : Bool)
        → (if trades
            then (if bought
                then quote ticker_cfg loss u.symbol_id (some bbo.ask_price) none e
                else quote ticker_cfg loss u.symbol_id none (some bbo.bid_price) e)
            else some e)
          ≡ some e'
        → EngineWithin (max_of ticker_cfg) e'
    taken false bought r = subst (EngineWithin (max_of ticker_cfg)) (some-injective e e' r) h
    taken true true r =
        quote-EngineWithin ticker_cfg loss u.symbol_id (some bbo.ask_price) none e e' h r
    taken true false r =
        quote-EngineWithin ticker_cfg loss u.symbol_id none (some bbo.bid_price) e e' h r
