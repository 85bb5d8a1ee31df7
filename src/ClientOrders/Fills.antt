-- ===== src/ClientOrders/Fills.antt =====
-- trading/strategy/trade_engine.cpp, order_manager.h and position_keeper.h: a response of the exchange
-- keeps the position, with what is still open, within its limit.
use mathlib.Core.Bool.{false≢true}
use yquant_system.Base.{
  ℕ, ◌+◌, ◌≤◌, ◌<◌, ◌≡◌, ◌⊎◌, Bool, true, false, not, ◌||◌, some, refl, ap, sym, subst, arith, ◌==◌,
  if◌then◌else◌, update, Bool-cases, inl, inr, lt→ltb, ==→eq,
}
use yquant_system.Base.Int.{ℤ, pos, sub_ℕ}
use yquant_system.Types.{Side, buy, sell, no_side, max_symbols}
use yquant_system.Messages.{ClientResponseType, ClientResponse}
use yquant_system.ClientOrders.{
  OmOrder, OmOrderSideHashMap, matches, apply_response, update_sides, on_order_update, add_fill,
  is_filled, TradeEngine, engine_on_order_update, is_invalid_response,
}
use yquant_system.ClientOrders.Risk.{is_open, open_qty, Bounded, IsWithin, sum_parts, sell_parts}

-- A fill is of an open order of the client and says what of it is left.
abbrev pub FillsOrder : ClientResponse → Side → OmOrder → Type 0
FillsOrder r side order =
    (r.side ≡ side)
    × (matches r order ≡ true)
    × (is_open order.order_state ≡ true)
    × (r.executed_quantity + r.remaining_quantity ≡ order.qty)

-- What the exchange promises of a response: one that accepts or fills an order is about an open one.
abbrev pub IsGenuineAs : ClientResponseType → ClientResponse → OmOrderSideHashMap → Type 0
IsGenuineAs ClientResponseType.filled r sides =
    FillsOrder r buy sides.bid ⊎ ((matches r sides.bid ≡ false) × FillsOrder r sell sides.ask)
IsGenuineAs ClientResponseType.accepted r sides =
    (matches r sides.bid ≡ true → is_open sides.bid.order_state ≡ true)
    × (matches r sides.ask ≡ true → is_open sides.ask.order_state ≡ true)
IsGenuineAs _ r sides = Unit {0}

-- What is open does not grow.
shrinks :
    (side : Side) (max : ℕ) (position : ℤ) (n m : ℕ)
    → m ≤ n
    → Bounded side max position n
    → Bounded side max position m
shrinks buy max position n m h b = omega (arith, h, b)
shrinks sell max position n m h b = omega (arith, h, b)
shrinks no_side max position n m h b = tt

closed_le : (order : OmOrder) → 0 ≤ open_qty order
closed_le order = omega arith

-- A response that is not a fill: no order has more open than before.
other-IsWithin :
    (r : ClientResponse) (k : ClientResponseType) (max : ℕ) (position : ℤ)
    (sides : OmOrderSideHashMap)
    → (matches r sides.bid ≡ true → open_qty (apply_response k r sides.bid) ≤ open_qty sides.bid)
    → (matches r sides.ask ≡ true → open_qty (apply_response k r sides.ask) ≤ open_qty sides.ask)
    → IsWithin max position sides
    → IsWithin max position (update_sides k r sides)
other-IsWithin r k max position sides less_bid less_ask (hb, ha) =
    elim (Bool-cases (matches r sides.bid)) [
      | inl t ↦ rw t (
        shrinks buy max position (open_qty sides.bid) (open_qty (apply_response k r sides.bid))
            (less_bid t) hb,
        ha,
      )
      | inr f ↦ elim (Bool-cases (matches r sides.ask)) [
        | inl t ↦
            rw (f, t)
              (
                hb,
                shrinks sell max position (open_qty sides.ask)
                    (open_qty (apply_response k r sides.ask)) (less_ask t) ha,
              )
        | inr g ↦ rw (f, g) (hb, ha)
      ]
    ]

open_live : (order : OmOrder) → is_open order.order_state ≡ true → order.qty ≤ open_qty order
open_live order h = rw h (omega arith)

open_le : (order : OmOrder) → open_qty order ≤ order.qty
open_le order = ground arith

bought :
    (max n m : ℕ) (position : ℤ) (r : ClientResponse)
    → r.side ≡ buy
    → r.executed_quantity + m ≤ n
    → Bounded buy max position n
    → Bounded buy max (add_fill r position) m
unfolding add_fill
bought max n m position r side total h =
    rw side (omega (arith, total, h, sum_parts position (pos r.executed_quantity)))

bought_other :
    (max n : ℕ) (position : ℤ) (r : ClientResponse)
    → r.side ≡ buy
    → Bounded sell max position n
    → Bounded sell max (add_fill r position) n
unfolding add_fill
bought_other max n position r side h =
    rw side (omega (arith, h, sum_parts position (pos r.executed_quantity)))

sold :
    (max n m : ℕ) (position : ℤ) (r : ClientResponse)
    → r.side ≡ sell
    → r.executed_quantity + m ≤ n
    → Bounded sell max position n
    → Bounded sell max (add_fill r position) m
unfolding add_fill
sold max n m position r side total h =
    let q = r.executed_quantity in
    rw side (omega (arith, total, h, sum_parts position (sub_ℕ 0 q), sell_parts q))

sold_other :
    (max n : ℕ) (position : ℤ) (r : ClientResponse)
    → r.side ≡ sell
    → Bounded buy max position n
    → Bounded buy max (add_fill r position) n
unfolding add_fill
sold_other max n position r side h =
    let q = r.executed_quantity in
    rw side (omega (arith, h, sum_parts position (sub_ℕ 0 q), sell_parts q))

left_open :
    (r : ClientResponse) (order : OmOrder)
    → open_qty (apply_response ClientResponseType.filled r order) ≤ r.remaining_quantity
unfolding apply_response
left_open r order = open_le (apply_response ClientResponseType.filled r order)

fill_total :
    (r : ClientResponse) (side : Side) (order : OmOrder)
    → FillsOrder r side order
    → r.executed_quantity + open_qty (apply_response ClientResponseType.filled r order)
      ≤ open_qty order
fill_total r side order (_, _, opened, total) =
    omega (arith, left_open r order, open_live order opened, total)

abbrev pub position_after : ClientResponseType → ClientResponse → ℤ → ℤ
position_after type r position = if is_filled type then add_fill r position else position

response-IsWithin :
    (k : ClientResponseType) (r : ClientResponse) (max : ℕ) (position : ℤ)
    (sides : OmOrderSideHashMap)
    → IsGenuineAs k r sides
    → IsWithin max position sides
    → IsWithin max (position_after k r position) (update_sides k r sides)
unfolding apply_response
response-IsWithin ClientResponseType.filled r max position sides (inl f) (hb, ha) = rw f.1 (
  bought max (open_qty sides.bid) (open_qty (apply_response ClientResponseType.filled r sides.bid))
      position r f.0 (fill_total r buy sides.bid f) hb,
  bought_other max (open_qty sides.ask) position r f.0 ha,
)
response-IsWithin ClientResponseType.filled r max position sides (inr (not_bid, f)) (hb, ha) =
    rw (not_bid, f.1)
      (
        sold_other max (open_qty sides.bid) position r f.0 hb,
        sold max (open_qty sides.ask)
            (open_qty (apply_response ClientResponseType.filled r sides.ask)) position r f.0
            (fill_total r sell sides.ask f) ha,
      )
response-IsWithin ClientResponseType.accepted r max position sides (bid, ask) h =
    other-IsWithin r ClientResponseType.accepted max position sides
      (λ t. open_live sides.bid (bid t)) (λ t. open_live sides.ask (ask t)) h
response-IsWithin ClientResponseType.canceled r max position sides g h =
    other-IsWithin r ClientResponseType.canceled max position sides (λ t. closed_le sides.bid)
      (λ t. closed_le sides.ask) h
response-IsWithin ClientResponseType.cancel_rejected r max position sides g h =
    other-IsWithin r ClientResponseType.cancel_rejected max position sides
      (λ t. closed_le sides.bid) (λ t. closed_le sides.ask) h
response-IsWithin ClientResponseType.invalid r max position sides g h =
    other-IsWithin r ClientResponseType.invalid max position sides (λ t. omega arith)
      (λ t. omega arith) h

or_true : (b : Bool) → (b || true) ≡ true
or_true true = refl
or_true false = refl

invalid_is_no_fill : (k : ClientResponseType) → is_invalid_response k ≡ true → is_filled k ≡ false
invalid_is_no_fill ClientResponseType.invalid h = refl
invalid_is_no_fill ClientResponseType.accepted h = absurd (false≢true h)
invalid_is_no_fill ClientResponseType.canceled h = absurd (false≢true h)
invalid_is_no_fill ClientResponseType.filled h = absurd (false≢true h)
invalid_is_no_fill ClientResponseType.cancel_rejected h = absurd (false≢true h)

-- Every symbol is within its limit.
abbrev pub EngineWithin : (ℕ → ℕ) → TradeEngine → Type 0
EngineWithin max e =
    (symbol : ℕ)
    → IsWithin (max symbol) (e.position symbol) (e.order_manager.ticker_side_order symbol)

abbrev after_response : ClientResponseType → ClientResponse → TradeEngine → TradeEngine
after_response k r e = record {
  position =
      if is_filled k
      then update e.position r.symbol_id (add_fill r (e.position r.symbol_id))
      else e.position;
  order_manager = record e.order_manager {
    ticker_side_order =
        update e.order_manager.ticker_side_order r.symbol_id
          (update_sides k r (e.order_manager.ticker_side_order r.symbol_id));
  };
}

position_at :
    (k : ClientResponseType) (r : ClientResponse) (e : TradeEngine) (symbol : ℕ)
    → (after_response k r e).position symbol ≡ (
        if symbol == r.symbol_id
        then position_after k r (e.position r.symbol_id)
        else e.position symbol)
position_at k r e symbol = elim (Bool-cases (symbol == r.symbol_id)) [
  | inl t ↦ elim (Bool-cases (is_filled k)) [
    | inl f ↦ rw (f, t) refl
    | inr g ↦ rw (g, t) (ap e.position (==→eq symbol r.symbol_id t))
  ]
  | inr n ↦ elim (Bool-cases (is_filled k)) [ inl f ↦ rw (f, n) refl | inr g ↦ rw (g, n) refl ]
]

after_response-EngineWithin :
    (max : ℕ → ℕ) (k : ClientResponseType) (r : ClientResponse) (e : TradeEngine)
    → IsGenuineAs k r (e.order_manager.ticker_side_order r.symbol_id)
    → EngineWithin max e
    → EngineWithin max (after_response k r e)
after_response-EngineWithin max k r e genuine h symbol =
    let sides = e.order_manager.ticker_side_order in
    subst
      (λ p. IsWithin (max symbol) p ((after_response k r e).order_manager.ticker_side_order symbol))
      (sym (position_at k r e symbol))
      (elim (Bool-cases (symbol == r.symbol_id)) [
        | inr n ↦ rw n (h symbol)
        | inl t ↦
            rw (t, ==→eq symbol r.symbol_id t)
              (response-IsWithin k r (max r.symbol_id) (e.position r.symbol_id) (sides r.symbol_id)
                genuine (h r.symbol_id))
      ])

-- When every symbol is within its limit, a response for a known symbol, which if it accepts or
-- fills an order is about an open one and leaves of it what was not filled, is taken by the trade
-- engine, and every symbol is within its limit after it: neither all fills of the open bid nor all
-- fills of the open ask take the position past it.
pub engine_on_order_update-EngineWithin :
    (max : ℕ → ℕ) (r : ClientResponse) (e : TradeEngine)
    → r.symbol_id < max_symbols
    → IsGenuineAs r.type r (e.order_manager.ticker_side_order r.symbol_id)
    → EngineWithin max e
    → (e' : TradeEngine) × (engine_on_order_update r e ≡ some e') × EngineWithin max e'
unfolding engine_on_order_update on_order_update
engine_on_order_update-EngineWithin max r e known genuine h =
    elim (Bool-cases (is_invalid_response r.type)) [
      | inr valid ↦ (
        after_response r.type r e,
        rw (valid, lt→ltb r.symbol_id max_symbols known, or_true (not (is_filled r.type))) refl,
        after_response-EngineWithin max r.type r e genuine h,
      )
      | inl invalid ↦ (
        e,
        rw
            (
              invalid,
              lt→ltb r.symbol_id max_symbols known,
              or_true (not (is_filled r.type)),
              invalid_is_no_fill r.type invalid,
            )
            refl,
        h,
      )
    ]
