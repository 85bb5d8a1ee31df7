-- ===== src/ClientOrders/Requests.antt =====
-- trading/strategy/order_manager.h: what a call of moveOrder may send.
use mathlib.Core.Option.{some-injective}
use yquant_system.Base.{
  ℕ, suc, ◌≤◌, ◌<◌, ◌≡◌, ◌⊎◌, Bool, true, Option, none, some, [], ◌∷◌, ◌++◌, refl, ap, sym, subst,
  ltb, ◌==◌, ◌&&◌, Bool-cases, inl, inr, assert-passed, ltb→lt,
}
use yquant_system.Base.Int.{ℤ}
use yquant_system.Types.{Side, max_order_ids}
use yquant_system.Messages.{ClientRequestType, MatchingEngineClientRequest}
use yquant_system.PriceBand.{default_band}
use yquant_system.ClientOrders.{
  OmOrderState, OmOrder, RiskCfg, RiskCheckResult, order_too_large, position_too_large,
  loss_too_large, allowed, check_pre_trade_risk, OrderManager, Sending, new_order, cancel_order,
  on_grid, quotable, same_price, enter, move_as, move_order,
}
use yquant_system.ClientOrders.Risk.{allowed-Bounded}

-- A call that sends nothing and changes nothing.
abbrev pub IsQuiet : OmOrder → OrderManager → Sending → Type 0
IsQuiet order o p = (p.0 ≡ order) × (p.1 ≡ o)

-- A cancel of the live order, which then waits for its answer.
abbrev pub IsCancel : OmOrder → OrderManager → Sending → Type 0
IsCancel order o p =
    (order.order_state ≡ OmOrderState.live)
    × (p.0.order_state ≡ OmOrderState.pending_cancel)
    × (p.0.order_id ≡ order.order_id)
    × ((r : MatchingEngineClientRequest) × (r.type ≡ ClientRequestType.canceled)
        × (r.order_id ≡ order.order_id)
        × (p.1.requests ≡ o.requests ++ r ∷ []))

-- A new order where none is open: a price of the grid, a size within the limit, and an order id
-- that was not used before and is inside the exchange's index.
abbrev pub IsNew : RiskCfg → ℕ → Side → ℕ → OmOrder → OrderManager → Sending → Type 0
IsNew cfg ticker_id side qty order o p =
    ((order.order_state ≡ OmOrderState.invalid) ⊎ (order.order_state ≡ OmOrderState.dead))
    × (p.0.order_state ≡ OmOrderState.pending_new)
    × (p.1.next_order_id ≡ suc o.next_order_id)
    × (0 < qty)
    × (qty ≤ cfg.max_order_size)
    × (o.next_order_id < max_order_ids)
    × ((price : ℤ) × (on_grid default_band price ≡ true)
        × (p.1.requests
            ≡ o.requests
              ++ record {
                type = ClientRequestType.new;
                client_id = o.client_id;
                symbol_id = ticker_id;
                order_id = o.next_order_id;
                side = side;
                price = price;
                quantity = qty;
              }
                ∷ []))

abbrev pub Allowed : RiskCfg → ℕ → Side → ℕ → OmOrder → OrderManager → Sending → Type 0
Allowed cfg ticker_id side qty order o p =
    IsQuiet order o p ⊎ (IsCancel order o p ⊎ IsNew cfg ticker_id side qty order o p)

module _ (cfg : RiskCfg) (position : ℤ) (loss : Bool) (order : OmOrder) (ticker_id : ℕ)
    (side : Side) (qty : ℕ) (o : OrderManager) (p : Sending) where
  quiet :
      Path (Option Sending) (some (order, o)) (some p) → Allowed cfg ticker_id side qty order o p
  quiet e =
      let same = some-injective (order, o) p e in
      inl (ap (λ q. q.0) (sym same), ap (λ q. q.1) (sym same))

  cancelled :
      order.order_state ≡ OmOrderState.live
      → Path (Option Sending) (some (cancel_order order o)) (some p)
      → Allowed cfg ticker_id side qty order o p
  unfolding cancel_order
  cancelled is_live e =
      subst (Allowed cfg ticker_id side qty order o) (some-injective (cancel_order order o) p e)
        (inr (inl (is_live, refl, refl, (_, refl, refl, refl))))

  entered :
      ((order.order_state ≡ OmOrderState.invalid) ⊎ (order.order_state ≡ OmOrderState.dead))
      → (price : ℤ) → on_grid default_band price ≡ true
      → check_pre_trade_risk cfg position loss side qty ≡ allowed
      → new_order ticker_id price side qty o ≡ some p
      → Allowed cfg ticker_id side qty order o p
  unfolding new_order
  entered none_open price grid passed run =
      let (known, e) = assert-passed (ltb o.next_order_id max_order_ids) _ p run in
      let (some_qty, size, _) = allowed-Bounded cfg position loss side qty passed in
      subst (Allowed cfg ticker_id side qty order o) (some-injective _ p e) (
        inr (
          inr (
            none_open,
            refl,
            refl,
            some_qty,
            size,
            ltb→lt o.next_order_id max_order_ids known,
            (price, grid, refl),
          )))

  enter-Allowed :
      ((order.order_state ≡ OmOrderState.invalid) ⊎ (order.order_state ≡ OmOrderState.dead))
      → (price : Option ℤ) (risk : RiskCheckResult)
      → check_pre_trade_risk cfg position loss side qty ≡ risk
      → enter risk order ticker_id (quotable price) side qty o ≡ some p
      → Allowed cfg ticker_id side qty order o p
  enter-Allowed none_open none risk e run = quiet run
  enter-Allowed none_open (some price) risk e run = elim (Bool-cases (on_grid default_band price)) [
    | inr off ↦ quiet (rw off at run)
    | inl grid ↦ enter_with grid risk e (rw grid at run)
  ]
    where
      enter_with :
          on_grid default_band price ≡ true
          → (risk : RiskCheckResult) → check_pre_trade_risk cfg position loss side qty ≡ risk
          → enter risk order ticker_id (some price) side qty o ≡ some p
          → Allowed cfg ticker_id side qty order o p
      enter_with grid order_too_large e run = quiet run
      enter_with grid position_too_large e run = quiet run
      enter_with grid loss_too_large e run = quiet run
      enter_with grid allowed e run = entered none_open price grid e run

  -- When moveOrder returns, it sent nothing and changed nothing, or canceled the live order, or,
  -- where no order was open, sent one new order at a price that passed the band check, of a size
  -- above zero and within the limit, under its next order id, which is inside the exchange's index
  -- and is counted on.
  pub move_order-Allowed :
      (price : Option ℤ)
      → move_order cfg position loss order ticker_id price side qty o ≡ some p
      → Allowed cfg ticker_id side qty order o p
  unfolding move_order
  move_order-Allowed price run = moved order.order_state refl run
    where
      moved :
          (k : OmOrderState)
          → order.order_state ≡ k
          → move_as k
              (check_pre_trade_risk cfg position loss side qty)
              order
              ticker_id
              (quotable price)
              side
              qty
              o
            ≡ some p
          → Allowed cfg ticker_id side qty order o p
      moved OmOrderState.pending_new e run = quiet run
      moved OmOrderState.pending_cancel e run = quiet run
      moved OmOrderState.invalid e run = enter-Allowed (inl e) price _ refl run
      moved OmOrderState.dead e run = enter-Allowed (inr e) price _ refl run
      moved OmOrderState.live e run =
          elim (Bool-cases (same_price order.price (quotable price) && (order.qty == qty))) [
            | inl same ↦ quiet (rw same at run)
            | inr differ ↦ cancelled e (rw differ at run)
          ]
