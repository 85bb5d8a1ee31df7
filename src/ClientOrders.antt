-- ===== src/ClientOrders.antt =====
-- trading/strategy/order_manager.h, order_manager.cpp, om_order.h, risk_manager.h, risk_manager.cpp and
-- trade_engine_config.h: the orders of a trading client, one per symbol and side, and the check
-- before each; with what trade_engine.cpp does for a response.
--
-- Positions stand as integers. The profit and loss of a symbol are floating-point numbers, of which
-- the check uses one comparison: its outcome is a parameter, `loss`. `requests` records what was
-- written to the queue of the order gateway. `none` is a run that ends in ASSERT, or in the
-- exception of `at` out of range.
pub mod Requests
pub mod Risk
pub mod Fills
pub mod Tests
use yquant_system.Base.{
  ℕ, suc, ◌+◌, ◌%◌, Bool, true, false, not, ◌&&◌, ◌||◌, Option, none, some, List, [], ◌∷◌, ◌++◌,
  ltb, ◌==◌, if◌then◌else◌, ◌>>=◌, assert, update,
}
use yquant_system.Base.Int.{ℤ, pos, pos_part, neg_part, sub_ℕ, ◌+ℤ◌, ◌-ℤ◌, leb_ℤ, ltb_ℤ}
use yquant_system.Types.{Side, buy, sell, no_side, is_buy, max_symbols, max_order_ids}
use yquant_system.Messages.{
  ClientRequestType, MatchingEngineClientRequest, ClientResponseType, ClientResponse,
}
use yquant_system.Bitmap.{tick_count}
use yquant_system.PriceBand.{PriceBand, default_band, to_tick}

pub data OmOrderState : Type 0 where
  invalid pending_new live pending_cancel dead : OmOrderState

pub record OmOrder : Type 0 where
  pub ticker_id : ℕ
  pub order_id : ℕ
  pub side : Side
  pub price : ℤ
  pub qty : ℕ
  pub order_state : OmOrderState

-- `OMOrderSideHashMap`: the entry of BUY and the entry of SELL.
pub record OmOrderSideHashMap : Type 0 where
  pub bid : OmOrder
  pub ask : OmOrder

pub record RiskCfg : Type 0 where
  pub max_order_size : ℕ
  pub max_position : ℕ

pub data RiskCheckResult : Type 0 where
  order_too_large position_too_large loss_too_large allowed : RiskCheckResult

abbrev pub abs : ℤ → ℕ
abs a = pos_part a + neg_part a

abbrev pub side_value : Side → ℕ → ℤ
side_value side qty = if is_buy side then pos qty else sub_ℕ 0 qty

unfoldable pub check_pre_trade_risk : RiskCfg → ℤ → Bool → Side → ℕ → RiskCheckResult
check_pre_trade_risk cfg position loss side qty =
    if (qty == 0) || ltb cfg.max_order_size qty
    then order_too_large
    else (if ltb cfg.max_position (abs (position +ℤ side_value side qty))
        then position_too_large
        else (if loss then loss_too_large else allowed))

pub record OrderManager : Type 0 where
  pub client_id : ℕ
  pub ticker_side_order : ℕ → OmOrderSideHashMap
  pub next_order_id : ℕ
  pub requests : List MatchingEngineClientRequest

abbrev pub no_order : OmOrder
no_order = record {
  ticker_id = 0;
  order_id = 0;
  side = buy;
  price = pos 0;
  qty = 0;
  order_state = OmOrderState.invalid;
}

abbrev pub create : ℕ → OrderManager
create client_id = record {
  client_id = client_id;
  ticker_side_order = λ _. record { bid = no_order; ask = no_order };
  next_order_id = 1;
  requests = [];
}

abbrev pub is_invalid : OmOrderState → Bool
is_invalid OmOrderState.invalid = true
is_invalid _ = false

abbrev pub matches : ClientResponse → OmOrder → Bool
matches r order = not (is_invalid order.order_state) && (order.order_id == r.client_order_id)

unfoldable pub apply_response : ClientResponseType → ClientResponse → OmOrder → OmOrder
apply_response ClientResponseType.accepted r order = record order {
  order_state = OmOrderState.live;
}
apply_response ClientResponseType.canceled r order = record order {
  order_state = OmOrderState.dead;
}
apply_response ClientResponseType.filled r order = record order {
  qty = r.remaining_quantity;
  order_state = if r.remaining_quantity == 0 then OmOrderState.dead else order.order_state;
}
apply_response ClientResponseType.cancel_rejected r order = record order {
  order_state = OmOrderState.dead;
}
apply_response ClientResponseType.invalid r order = order

-- The first entry that has the id of the response, if one has it.
abbrev pub update_sides :
    ClientResponseType → ClientResponse → OmOrderSideHashMap → OmOrderSideHashMap
update_sides type r sides =
    if matches r sides.bid
    then record sides { bid = apply_response type r sides.bid }
    else (if matches r sides.ask
        then record sides { ask = apply_response type r sides.ask }
        else sides)

abbrev pub is_invalid_response : ClientResponseType → Bool
is_invalid_response ClientResponseType.invalid = true
is_invalid_response _ = false

unfoldable pub on_order_update : ClientResponse → OrderManager → Option OrderManager
on_order_update r o =
    if is_invalid_response r.type
    then some o
    else assert (ltb r.symbol_id max_symbols) (
        some (record o {
          ticker_side_order =
              update o.ticker_side_order r.symbol_id
                (update_sides r.type r (o.ticker_side_order r.symbol_id));
        }))

-- The entry and the manager after a call that may send a request for the entry.
abbrev pub Sending : Type 0
Sending = OmOrder × OrderManager

unfoldable pub new_order : ℕ → ℤ → Side → ℕ → OrderManager → Option Sending
new_order ticker_id price side qty o = assert (ltb o.next_order_id max_order_ids) (
    some (
      record {
        ticker_id = ticker_id;
        order_id = o.next_order_id;
        side = side;
        price = price;
        qty = qty;
        order_state = OmOrderState.pending_new;
      },
      record o {
        next_order_id = suc o.next_order_id;
        requests =
            o.requests
            ++ record {
              type = ClientRequestType.new;
              client_id = o.client_id;
              symbol_id = ticker_id;
              order_id = o.next_order_id;
              side = side;
              price = price;
              quantity = qty;
            }
              ∷ [];
      },
    ))

unfoldable pub cancel_order : OmOrder → OrderManager → Sending
cancel_order order o = (
  record order { order_state = OmOrderState.pending_cancel },
  record o {
    requests =
        o.requests
        ++ record {
          type = ClientRequestType.canceled;
          client_id = o.client_id;
          symbol_id = order.ticker_id;
          order_id = order.order_id;
          side = order.side;
          price = order.price;
          quantity = order.qty;
        }
          ∷ [];
  },
)

unfoldable pub on_grid : PriceBand → ℤ → Bool
on_grid band price =
    leb_ℤ band.base_price price
    && (pos_part (price -ℤ band.base_price) % pos_part band.tick_size == 0)
    && ltb_ℤ (to_tick band price) (pos tick_count)

-- A price outside the band counts as none.
abbrev pub quotable : Option ℤ → Option ℤ
quotable none = none
quotable (some price) = if on_grid default_band price then some price else none

abbrev pub same_price : ℤ → Option ℤ → Bool
same_price a none = false
same_price a (some b) = leb_ℤ a b && leb_ℤ b a

abbrev pub enter_allowed :
    RiskCheckResult → OmOrder → ℕ → ℤ → Side → ℕ → OrderManager → Option Sending
enter_allowed allowed order ticker_id price side qty o = new_order ticker_id price side qty o
enter_allowed _ order ticker_id price side qty o = some (order, o)

abbrev pub enter :
    RiskCheckResult → OmOrder → ℕ → Option ℤ → Side → ℕ → OrderManager → Option Sending
enter risk order ticker_id none side qty o = some (order, o)
enter risk order ticker_id (some price) side qty o =
    enter_allowed risk order ticker_id price side qty o

-- `risk` is the result of the check, which only a new order asks for.
abbrev pub move_as :
    OmOrderState
    → RiskCheckResult
    → OmOrder
    → ℕ
    → Option ℤ
    → Side
    → ℕ
    → OrderManager
    → Option Sending
move_as OmOrderState.live risk order ticker_id price side qty o =
    if same_price order.price price && (order.qty == qty)
    then some (order, o)
    else some (cancel_order order o)
move_as OmOrderState.invalid risk order ticker_id price side qty o =
    enter risk order ticker_id price side qty o
move_as OmOrderState.dead risk order ticker_id price side qty o =
    enter risk order ticker_id price side qty o
move_as OmOrderState.pending_new risk order ticker_id price side qty o = some (order, o)
move_as OmOrderState.pending_cancel risk order ticker_id price side qty o = some (order, o)

unfoldable pub move_order :
    RiskCfg → ℤ → Bool → OmOrder → ℕ → Option ℤ → Side → ℕ → OrderManager → Option Sending
move_order cfg position loss order ticker_id price side qty o =
    move_as order.order_state (check_pre_trade_risk cfg position loss side qty) order ticker_id
      (quotable price) side qty o

abbrev pub set_bid : ℕ → OmOrder → OrderManager → OrderManager
set_bid ticker_id order o = record o {
  ticker_side_order =
      update o.ticker_side_order ticker_id (record (o.ticker_side_order ticker_id) { bid = order });
}

abbrev pub set_ask : ℕ → OmOrder → OrderManager → OrderManager
set_ask ticker_id order o = record o {
  ticker_side_order =
      update o.ticker_side_order ticker_id (record (o.ticker_side_order ticker_id) { ask = order });
}

unfoldable pub move_orders :
    RiskCfg → ℤ → Bool → ℕ → Option ℤ → Option ℤ → ℕ → OrderManager → Option OrderManager
move_orders cfg position loss ticker_id bid_price ask_price clip o =
    assert (ltb ticker_id max_symbols) (do
      p ←
          move_order cfg position loss (o.ticker_side_order ticker_id).bid ticker_id bid_price buy
            clip o
      let o1 = set_bid ticker_id p.0 p.1
      q ←
          move_order cfg position loss (o1.ticker_side_order ticker_id).ask ticker_id ask_price sell
            clip o1
      some (set_ask ticker_id q.0 q.1))

-- The part of PositionInfo::addFill that is about the position.
unfoldable pub add_fill : ClientResponse → ℤ → ℤ
add_fill r position = position +ℤ side_value r.side r.executed_quantity

abbrev pub is_filled : ClientResponseType → Bool
is_filled ClientResponseType.filled = true
is_filled _ = false

pub record TradeEngine : Type 0 where
  pub position : ℕ → ℤ
  pub order_manager : OrderManager

-- TradeEngine::onOrderUpdate: a fill counts into the position before the order is updated.
unfoldable pub engine_on_order_update : ClientResponse → TradeEngine → Option TradeEngine
engine_on_order_update r e = assert (not (is_filled r.type) || ltb r.symbol_id max_symbols) (do
  o ← on_order_update r e.order_manager
  some (record {
    position =
        if is_filled r.type
        then update e.position r.symbol_id (add_fill r (e.position r.symbol_id))
        else e.position;
    order_manager = o;
  }))
