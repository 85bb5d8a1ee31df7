-- ===== src/MarketData/Snapshot/Stream.antt =====
-- exchange/market_data/snapshot_synthesizer.cc: the messages of a snapshot, against a description of
-- them as one list.
use mathlib.Core.List.{append_assoc, append-nil}
use yquant_system.Base.{
  ℕ, zero, suc, ◌+◌, ◌≡◌, Option, none, some, List, [], ◌∷◌, ◌++◌, refl, ◌∙◌, ap, sym, length,
  arith, length-append,
}
use yquant_system.Messages.{MarketUpdateType, MarketUpdate}
use yquant_system.MarketData.Increments.{numbered, numbered-append}
use yquant_system.MarketData.Snapshot.{
  OrderTable, Cycle, emit, plain, emit_order, publish_orders, publish_symbols, snapshot_of,
}

abbrev pub one_order : Option MarketUpdate → List MarketUpdate
one_order none = []
one_order (some order) = order ∷ []

-- The orders of one symbol by their ids.
abbrev pub orders_from : ℕ → ℕ → (ℕ → Option MarketUpdate) → List MarketUpdate
orders_from zero id orders = []
orders_from (suc n) id orders = one_order (orders id) ++ orders_from n (suc id) orders

-- Per symbol a CLEAR, then its orders.
abbrev pub symbols_from : ℕ → ℕ → ℕ → OrderTable → List MarketUpdate
symbols_from ids zero symbol orders = []
symbols_from ids (suc n) symbol orders =
    (plain MarketUpdateType.clear symbol 0 ∷ orders_from ids 0 (orders symbol))
    ++ symbols_from ids n (suc symbol) orders

abbrev pub snapshot_updates : ℕ → ℕ → ℕ → OrderTable → List MarketUpdate
snapshot_updates ids symbols last orders =
    plain MarketUpdateType.snapshot_start 0 last ∷ symbols_from ids symbols 0 orders
    ++ plain MarketUpdateType.snapshot_end 0 last ∷ []

pair_eq : {A B : Type 0} {a a' : A} {b b' : B} → a ≡ a' → b ≡ b' → ◌≡◌ {A = A × B} (a, b) (a', b')
pair_eq p q = λ i. (p i, q i)

-- The cycle `us` later.
unfoldable after : List MarketUpdate → Cycle → Cycle
after us (n, out) = (n + length us, out ++ numbered n us)

after-append : (us vs : List MarketUpdate) (c : Cycle) → after vs (after us c) ≡ after (us ++ vs) c
unfolding after
after-append us vs (n, out) =
    let l = length-append us vs in
    pair_eq (omega (arith, l)) (
      append_assoc out (numbered n us) (numbered (n + length us) vs)
      ∙ ap (λ l. out ++ l) (sym (numbered-append n us vs)))

emit_order-after : (o : Option MarketUpdate) (c : Cycle) → emit_order o c ≡ after (one_order o) c
unfolding after
emit_order-after none (n, out) = pair_eq (omega arith) (sym (append-nil out))
emit_order-after (some u) (n, out) = pair_eq (omega arith) refl

publish_orders-after :
    (n id : ℕ) (orders : ℕ → Option MarketUpdate) (c : Cycle)
    → publish_orders n id orders c ≡ after (orders_from n id orders) c
publish_orders-after zero id orders (n, out) = emit_order-after none (n, out)
publish_orders-after (suc n) id orders c =
    publish_orders-after n (suc id) orders (emit_order (orders id) c)
    ∙ ap (after (orders_from n (suc id) orders)) (emit_order-after (orders id) c)
    ∙ after-append (one_order (orders id)) (orders_from n (suc id) orders) c

publish_symbols-after :
    (ids n symbol : ℕ) (orders : OrderTable) (c : Cycle)
    → publish_symbols ids n symbol orders c ≡ after (symbols_from ids n symbol orders) c
publish_symbols-after ids zero symbol orders (n, out) = emit_order-after none (n, out)
publish_symbols-after ids (suc n) symbol orders c =
    let clear = plain MarketUpdateType.clear symbol 0 in
    let here = orders_from ids 0 (orders symbol) in
    let later = symbols_from ids n (suc symbol) orders in
    publish_symbols-after ids n (suc symbol) orders
      (publish_orders ids 0 (orders symbol) (emit clear c))
    ∙ ap (after later) (
        publish_orders-after ids 0 (orders symbol) (emit clear c)
        ∙ ap (after here) (emit_order-after (some clear) c)
        ∙ after-append (clear ∷ []) here c)
    ∙ after-append (clear ∷ here) later c

-- A snapshot is, with consecutive numbers from 0 on: a start message with the number of the last
-- increment, per symbol a CLEAR and then its orders by their ids, and an end message with that
-- number again.
pub snapshot_of-numbered :
    (ids symbols last : ℕ) (orders : OrderTable)
    → snapshot_of ids symbols last orders ≡ numbered 0 (snapshot_updates ids symbols last orders)
unfolding after
snapshot_of-numbered ids symbols last orders =
    let first = plain MarketUpdateType.snapshot_start 0 last in
    let end = plain MarketUpdateType.snapshot_end 0 last in
    let body = symbols_from ids symbols 0 orders in
    ap (λ c. c.1)
      (ap (emit end) (
          publish_symbols-after ids symbols 0 orders (emit first (0, []))
          ∙ ap (after body) (emit_order-after (some first) (0, []))
          ∙ after-append (first ∷ []) body (0, []))
        ∙ emit_order-after (some end) (after (first ∷ body) (0, []))
        ∙ after-append (first ∷ body) (end ∷ []) (0, []))
