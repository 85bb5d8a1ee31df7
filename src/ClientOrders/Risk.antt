-- ===== src/ClientOrders/Risk.antt =====
-- trading/strategy/order_manager.h and risk_manager.h: whatever is filled of the open orders, the
-- position stays within its limit.
use mathlib.Core.Bool.{false≢true}
use mathlib.Core.Option.{some-injective, none-ne-some}
use yquant_system.Base.{
  ℕ, ◌+◌, ◌≤◌, ◌<◌, ◌≡◌, Bool, true, false, ◌&&◌, ◌||◌, Option, none, some, refl, ◌∙◌, ap, sym,
  subst, arith, ltb, ◌==◌, if◌then◌else◌, ◌>>=◌, Bool-cases, Option-cases, inl, inr, assert-passed,
  bind-passed, update_self, update_ne, ◌≢◌,
}
use yquant_system.Base.Int.{ℤ, pos, pos_part, neg_part, sub_ℕ, ◌+ℤ◌}
use yquant_system.Types.{Side, buy, sell, no_side, max_symbols, max_order_ids}
use yquant_system.ClientOrders.{
  OmOrderState, OmOrder, OmOrderSideHashMap, RiskCfg, RiskCheckResult, order_too_large,
  position_too_large, loss_too_large, allowed, abs, side_value, check_pre_trade_risk, OrderManager,
  Sending, new_order, cancel_order, quotable, same_price, enter, move_as, move_order, move_orders,
  set_bid, set_ask,
}

abbrev pub is_open : OmOrderState → Bool
is_open OmOrderState.pending_new = true
is_open OmOrderState.live = true
is_open OmOrderState.pending_cancel = true
is_open OmOrderState.invalid = false
is_open OmOrderState.dead = false

-- What can still be filled of an order.
abbrev pub open_qty : OmOrder → ℕ
open_qty order = if is_open order.order_state then order.qty else 0

-- A fill of n on a side of a position leaves it within the limit on that side.
abbrev pub Bounded : Side → ℕ → ℤ → ℕ → Type 0
Bounded buy max position n = pos_part position + n ≤ max + neg_part position
Bounded sell max position n = neg_part position + n ≤ max + pos_part position
Bounded no_side max position n = Unit {0}

abbrev pub IsWithin : ℕ → ℤ → OmOrderSideHashMap → Type 0
IsWithin max position sides =
    Bounded buy max position (open_qty sides.bid) × Bounded sell max position (open_qty sides.ask)

pub sum_parts :
    (a b : ℤ)
    → pos_part (a +ℤ b) + neg_part a + neg_part b ≡ neg_part (a +ℤ b) + pos_part a + pos_part b
unfolding ◌+ℤ◌
sum_parts a b = ground arith

pub sell_parts : (q : ℕ) → neg_part (sub_ℕ 0 q) ≡ pos_part (sub_ℕ 0 q) + q
sell_parts q = ground arith

leb_of : (a b : ℕ) → ltb a b ≡ false → b ≤ a
leb_of a b h = ground arith

is_allowed : RiskCheckResult → Bool
is_allowed allowed = true
is_allowed _ = false

not_refused :
    (b : Bool) (r k : RiskCheckResult)
    → is_allowed r ≡ false
    → is_allowed (if b then r else k) ≡ true
    → (b ≡ false) × (is_allowed k ≡ true)
not_refused true r k refuses h = absurd (false≢true (sym refuses ∙ h))
not_refused false r k refuses h = (refl, h)

size_fits : (max qty : ℕ) → ((qty == 0) || ltb max qty) ≡ false → (0 < qty) × (qty ≤ max)
size_fits max qty h = ground arith

side_value-Bounded :
    (side : Side) (max qty : ℕ) (position : ℤ)
    → abs (position +ℤ side_value side qty) ≤ max
    → Bounded side max position qty
side_value-Bounded buy max qty position h = omega (arith, h, sum_parts position (pos qty))
side_value-Bounded sell max qty position h =
    omega (arith, h, sum_parts position (sub_ℕ 0 qty), sell_parts qty)
side_value-Bounded no_side max qty position h = tt

-- A passed check: the size is in its limits, and so is the position after the whole of it.
pub allowed-Bounded :
    (cfg : RiskCfg) (position : ℤ) (loss : Bool) (side : Side) (qty : ℕ)
    → check_pre_trade_risk cfg position loss side qty ≡ allowed
    → (0 < qty) × (qty ≤ cfg.max_order_size) × Bounded side cfg.max_position position qty
unfolding check_pre_trade_risk is_allowed
allowed-Bounded cfg position loss side qty h =
    let (fits, h1) =
      not_refused ((qty == 0) || ltb cfg.max_order_size qty) order_too_large _ refl
        (ap is_allowed h) in
    let (small, _) =
      not_refused (ltb cfg.max_position (abs (position +ℤ side_value side qty))) position_too_large
        _ refl h1 in
    let (some_qty, size) = size_fits cfg.max_order_size qty fits in
    (
      some_qty,
      size,
      side_value-Bounded side cfg.max_position qty position
          (leb_of cfg.max_position (abs (position +ℤ side_value side qty)) small),
    )

-- A call for one entry: the other entries stay, and what is open stays within the limit.
record Moved (cfg : RiskCfg) (position : ℤ) (side : Side) (o : OrderManager) (p : Sending)
    : Type 0 where
  bounded : Bounded side cfg.max_position position (open_qty p.0)
  entries : p.1.ticker_side_order ≡ o.ticker_side_order

new_order-Moved :
    (cfg : RiskCfg) (position : ℤ) (ticker_id : ℕ) (price : ℤ) (side : Side) (qty : ℕ)
    (o : OrderManager) (p : Sending)
    → Bounded side cfg.max_position position qty
    → new_order ticker_id price side qty o ≡ some p
    → Moved cfg position side o p
unfolding new_order
new_order-Moved cfg position ticker_id price side qty o p h run =
    let (_, e) = assert-passed (ltb o.next_order_id max_order_ids) _ p run in
    subst (Moved cfg position side o) (some-injective _ p e)
      (record { bounded = h; entries = refl })

kept-Moved :
    (cfg : RiskCfg) (position : ℤ) (side : Side) (order : OmOrder) (o : OrderManager) (p : Sending)
    → Bounded side cfg.max_position position (open_qty order)
    → Path (Option Sending) (some (order, o)) (some p)
    → Moved cfg position side o p
kept-Moved cfg position side order o p h e =
    subst (Moved cfg position side o) (some-injective (order, o) p e)
      (record { bounded = h; entries = refl })

enter-Moved :
    (cfg : RiskCfg) (position : ℤ) (loss : Bool) (order : OmOrder) (ticker_id : ℕ)
    (price : Option ℤ) (side : Side) (qty : ℕ) (o : OrderManager) (p : Sending)
    (risk : RiskCheckResult)
    → check_pre_trade_risk cfg position loss side qty ≡ risk
    → Bounded side cfg.max_position position (open_qty order)
    → enter risk order ticker_id price side qty o ≡ some p
    → Moved cfg position side o p
enter-Moved cfg position loss order ticker_id none side qty o p risk e h run =
    kept-Moved cfg position side order o p h run
enter-Moved cfg position loss order ticker_id (some price) side qty o p allowed e h run =
    let (_, _, b) = allowed-Bounded cfg position loss side qty e in
    new_order-Moved cfg position ticker_id price side qty o p b run
enter-Moved cfg position loss order ticker_id (some price) side qty o p order_too_large e h run =
    kept-Moved cfg position side order o p h run
enter-Moved cfg position loss order ticker_id (some price) side qty o p position_too_large e h run =
    kept-Moved cfg position side order o p h run
enter-Moved cfg position loss order ticker_id (some price) side qty o p loss_too_large e h run =
    kept-Moved cfg position side order o p h run

cancel-Moved :
    (cfg : RiskCfg) (position : ℤ) (side : Side) (order : OmOrder) (o : OrderManager) (p : Sending)
    → Bounded side cfg.max_position position (open_qty order)
    → order.order_state ≡ OmOrderState.live
    → Path (Option Sending) (some (cancel_order order o)) (some p)
    → Moved cfg position side o p
unfolding cancel_order
cancel-Moved cfg position side order o p h is_live e =
    let open_before : open_qty order ≡ order.qty =
      ap (λ k. if is_open k then order.qty else 0) is_live in
    subst (Moved cfg position side o) (some-injective (cancel_order order o) p e) (record {
      bounded = subst (Bounded side cfg.max_position position) open_before h;
      entries = refl;
    })

move_as-Moved :
    (cfg : RiskCfg) (position : ℤ) (loss : Bool) (order : OmOrder) (ticker_id : ℕ)
    (price : Option ℤ) (side : Side) (qty : ℕ) (o : OrderManager) (p : Sending) (k : OmOrderState)
    → order.order_state ≡ k
    → Bounded side cfg.max_position position (open_qty order)
    → move_as k (check_pre_trade_risk cfg position loss side qty) order ticker_id price side qty o
      ≡ some p
    → Moved cfg position side o p
move_as-Moved cfg position loss order ticker_id price side qty o p OmOrderState.live e h run =
    elim (Bool-cases (same_price order.price price && (order.qty == qty))) [
      | inl same ↦ kept-Moved cfg position side order o p h (rw same at run)
      | inr differ ↦ cancel-Moved cfg position side order o p h e (rw differ at run)
    ]
move_as-Moved cfg position loss order ticker_id price side qty o p OmOrderState.invalid e h run =
    enter-Moved cfg position loss order ticker_id price side qty o p _ refl h run
move_as-Moved cfg position loss order ticker_id price side qty o p OmOrderState.dead e h run =
    enter-Moved cfg position loss order ticker_id price side qty o p _ refl h run
move_as-Moved cfg position loss order ticker_id price side qty o p OmOrderState.pending_new e h
      run =
    kept-Moved cfg position side order o p h run
move_as-Moved cfg position loss order ticker_id price side qty o p OmOrderState.pending_cancel e h
      run =
    kept-Moved cfg position side order o p h run

-- After a call for a symbol: that symbol is within its limit, and the others are as they were.
abbrev pub Quoted : ℕ → ℤ → ℕ → OrderManager → OrderManager → Type 0
Quoted max position ticker_id o o' =
    IsWithin max position (o'.ticker_side_order ticker_id)
    × ((symbol : ℕ) → symbol ≢ ticker_id → o'.ticker_side_order symbol ≡ o.ticker_side_order symbol)

-- The second half of a call for both sides.
ask-Quoted :
    (cfg : RiskCfg) (position : ℤ) (loss : Bool) (ticker_id : ℕ) (ask_price : Option ℤ) (clip : ℕ)
    (o o' : OrderManager)
    → IsWithin cfg.max_position position (o.ticker_side_order ticker_id)
    → (move_order cfg position loss
          (o.ticker_side_order ticker_id).ask
          ticker_id
          ask_price
          sell
          clip
          o
        >>= λ q. some (set_ask ticker_id q.0 q.1))
      ≡ some o'
    → Quoted cfg.max_position position ticker_id o o'
unfolding move_order
ask-Quoted cfg position loss ticker_id ask_price clip o o' (hb, ha) run =
    let before = o.ticker_side_order ticker_id in
    let (q, ran, e) =
      bind-passed (move_order cfg position loss before.ask ticker_id ask_price sell clip o)
        (λ q. some (set_ask ticker_id q.0 q.1)) o' run in
    let m =
      move_as-Moved cfg position loss before.ask ticker_id (quotable ask_price) sell clip o q
        before.ask.order_state refl ha ran in
    let entry = record (q.1.ticker_side_order ticker_id) { ask = q.0 } in
    let sides : (set_ask ticker_id q.0 q.1).ticker_side_order ticker_id
        ≡ record before { ask = q.0 } =
      update_self q.1.ticker_side_order ticker_id entry
      ∙ ap (λ t. record (t ticker_id) { ask = q.0 }) m.entries in
    subst (Quoted cfg.max_position position ticker_id o)
      (some-injective (set_ask ticker_id q.0 q.1) o' e)
      (
        subst (IsWithin cfg.max_position position) (sym sides) (hb, m.bounded),
        λ symbol other.
            update_ne q.1.ticker_side_order ticker_id symbol entry other
            ∙ ap (λ t. t symbol) m.entries,
      )

pub move_orders-Quoted :
    (cfg : RiskCfg) (position : ℤ) (loss : Bool) (ticker_id : ℕ) (bid_price ask_price : Option ℤ)
    (clip : ℕ) (o o' : OrderManager)
    → IsWithin cfg.max_position position (o.ticker_side_order ticker_id)
    → move_orders cfg position loss ticker_id bid_price ask_price clip o ≡ some o'
    → Quoted cfg.max_position position ticker_id o o'
unfolding move_orders move_order
move_orders-Quoted cfg position loss ticker_id bid_price ask_price clip o o' (hb, ha) run =
    let (_, r1) = assert-passed (ltb ticker_id max_symbols) _ o' run in
    let before = o.ticker_side_order ticker_id in
    elim (Option-cases (move_order cfg position loss before.bid ticker_id bid_price buy clip o)) [
      | inl stop ↦ absurd (none-ne-some o' (rw stop at r1))
      | inr (p, ran) ↦
          let m =
            move_as-Moved cfg position loss before.bid ticker_id (quotable bid_price) buy clip o p
              before.bid.order_state refl hb ran in
          let o1 = set_bid ticker_id p.0 p.1 in
          let entry = record (p.1.ticker_side_order ticker_id) { bid = p.0 } in
          let sides1 : o1.ticker_side_order ticker_id ≡ record before { bid = p.0 } =
            update_self p.1.ticker_side_order ticker_id entry
            ∙ ap (λ t. record (t ticker_id) { bid = p.0 }) m.entries in
          let (within, others) =
            ask-Quoted cfg position loss ticker_id ask_price clip o1 o'
              (subst (IsWithin cfg.max_position position) (sym sides1) (m.bounded, ha))
              (rw ran at r1) in
          (
            within,
            λ symbol other.
                others symbol other
                ∙ update_ne p.1.ticker_side_order ticker_id symbol entry other
                ∙ ap (λ t. t symbol) m.entries,
          )
    ]

-- Whatever quotes the strategy asks for, when moveOrders returns and both sides of the symbol were
-- within the position limit of its configuration before, they are after: neither all fills of the
-- open bid nor all fills of the open ask take the position past it.
pub move_orders-IsWithin :
    (cfg : RiskCfg) (position : ℤ) (loss : Bool) (ticker_id : ℕ) (bid_price ask_price : Option ℤ)
    (clip : ℕ) (o o' : OrderManager)
    → IsWithin cfg.max_position position (o.ticker_side_order ticker_id)
    → move_orders cfg position loss ticker_id bid_price ask_price clip o ≡ some o'
    → IsWithin cfg.max_position position (o'.ticker_side_order ticker_id)
move_orders-IsWithin cfg position loss ticker_id bid_price ask_price clip o o' h run =
    (move_orders-Quoted cfg position loss ticker_id bid_price ask_price clip o o' h run).0
