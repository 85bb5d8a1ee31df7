-- ===== src/MarketData/Snapshot/Replay.antt =====
-- exchange/market_data/snapshot_synthesizer.cc: what a reader of a snapshot gets from it.
use yquant_system.Base.{
  ℕ, zero, suc, ◌+◌, ◌≤◌, ◌<◌, ◌≡◌, ◌≢◌, Option, none, some, List, [], ◌∷◌, ◌++◌, refl, ◌∙◌, ap,
  sym, arith, ◌==◌, update, Bool-cases, inl, inr, map, ==→eq, ==→ne, ne→==, ==_self, ◌⊎◌,
  update_self, update_ne,
}
use yquant_system.Messages.{MarketUpdateType, MarketUpdate}
use yquant_system.MarketData.{MarketDataPublisherMarketUpdate}
use yquant_system.MarketData.Increments.{numbered}
use yquant_system.MarketData.Snapshot.{OrderTable, put, plain, snapshot_of}
use yquant_system.MarketData.Snapshot.Stream.{
  one_order, orders_from, symbols_from, snapshot_updates, snapshot_of-numbered,
}

abbrev pub with_order : MarketUpdate → Option MarketUpdate → Option MarketUpdate
with_order u none = none
with_order u (some order) = some (record order { quantity = u.quantity; price = u.price })

-- What an update says of the live orders of the exchange: the meaning that both ends of the market
-- data give to it.
abbrev pub read_as : MarketUpdateType → MarketUpdate → OrderTable → OrderTable
read_as MarketUpdateType.clear u orders = update orders u.symbol_id (λ id. none)
read_as MarketUpdateType.add u orders = put u.symbol_id u.order_id (some u) orders
read_as MarketUpdateType.modify u orders =
    put u.symbol_id u.order_id (with_order u (orders u.symbol_id u.order_id)) orders
read_as MarketUpdateType.cancel u orders = put u.symbol_id u.order_id none orders
read_as _ u orders = orders

abbrev pub read_update : MarketUpdate → OrderTable → OrderTable
read_update u orders = read_as u.type u orders

abbrev pub replay : List MarketUpdate → OrderTable → OrderTable
replay [] orders = orders
replay (u ∷ us) orders = replay us (read_update u orders)

pub replay-append :
    (us vs : List MarketUpdate) (orders : OrderTable)
    → replay (us ++ vs) orders ≡ replay vs (replay us orders)
replay-append [] vs orders = refl
replay-append (u ∷ us) vs orders = replay-append us vs (read_update u orders)

-- Every order of the table stands under its own symbol and id, as it was added.
abbrev pub IsInPlace : OrderTable → Type 0
IsInPlace orders =
    (symbol id : ℕ) (u : MarketUpdate)
    → orders symbol id ≡ some u
    → (u.type ≡ MarketUpdateType.add) × (u.symbol_id ≡ symbol) × (u.order_id ≡ id)

-- The part of `IsInPlace` that is about one order.
abbrev StandsAt : ℕ → ℕ → Option MarketUpdate → Type 0
StandsAt symbol id o =
    (u : MarketUpdate)
    → o ≡ some u
    → (u.type ≡ MarketUpdateType.add) × (u.symbol_id ≡ symbol) × (u.order_id ≡ id)

one_order-elsewhere :
    (o : Option MarketUpdate) (symbol id : ℕ) (t : OrderTable) (s j : ℕ)
    → StandsAt symbol id o
    → (s ≡ symbol → j ≢ id)
    → replay (one_order o) t s j ≡ t s j
one_order-elsewhere none symbol id t s j h away = refl
one_order-elsewhere (some u) symbol id t s j h away =
    let (is_add, at_symbol, at_id) = h u refl in
    rw (is_add, at_symbol, at_id)
      (elim (Bool-cases (s == symbol)) [
        | inr f ↦ rw f refl
        | inl e ↦
            let same = ==→eq s symbol e in
            rw (e, ne→== j id (away same)) (ap (λ k. t k j) (sym same))
      ])

one_order-here :
    (o : Option MarketUpdate) (symbol id : ℕ) (t : OrderTable)
    → StandsAt symbol id o
    → t symbol id ≡ none
    → replay (one_order o) t symbol id ≡ o
one_order-here none symbol id t h free = free
one_order-here (some u) symbol id t h free =
    let (is_add, at_symbol, at_id) = h u refl in
    rw (is_add, at_symbol, at_id, ==_self symbol, ==_self id) refl

abbrev RowStands : ℕ → (ℕ → Option MarketUpdate) → Type 0
RowStands symbol row = (id : ℕ) → StandsAt symbol id (row id)

orders_from-elsewhere :
    (n id symbol : ℕ) (row : ℕ → Option MarketUpdate) (t : OrderTable) (s j : ℕ)
    → RowStands symbol row
    → (s ≡ symbol → (j < id) ⊎ (id + n ≤ j))
    → replay (orders_from n id row) t s j ≡ t s j
orders_from-elsewhere zero id symbol row t s j h away = refl
orders_from-elsewhere (suc n) id symbol row t s j h away =
    ap (λ f. f s j) (replay-append (one_order (row id)) (orders_from n (suc id) row) t)
    ∙ orders_from-elsewhere n (suc id) symbol row (replay (one_order (row id)) t) s j h
        (λ e. ground (arith, away e))
    ∙ one_order-elsewhere (row id) symbol id t s j (h id) (λ e. ground (arith, away e))

orders_from-here :
    (n id symbol : ℕ) (row : ℕ → Option MarketUpdate) (t : OrderTable) (j : ℕ)
    → RowStands symbol row
    → id ≤ j
    → j < id + n
    → t symbol j ≡ none
    → replay (orders_from n id row) t symbol j ≡ row j
orders_from-here zero id symbol row t j h low high free = absurd (omega (arith, low, high))
orders_from-here (suc n) id symbol row t j h low high free =
    ap (λ f. f symbol j) (replay-append (one_order (row id)) (orders_from n (suc id) row) t)
    ∙ elim (Bool-cases (id == j)) [
      | inl e ↦
          let same = ==→eq id j e in
          orders_from-elsewhere n (suc id) symbol row (replay (one_order (row id)) t) symbol j h
            (λ _. inl (omega (arith, same)))
          ∙ ap (replay (one_order (row id)) t symbol) (sym same)
          ∙ one_order-here (row id) symbol id t (h id) (ap (t symbol) same ∙ free)
          ∙ ap row same
      | inr f ↦
          let other = ==→ne id j f in
          orders_from-here n (suc id) symbol row (replay (one_order (row id)) t) j h
            (omega (arith, other, low)) (omega (arith, high))
            (one_order-elsewhere (row id) symbol id t symbol j (h id) (λ _. omega (arith, other))
              ∙ free)
    ]

symbols_from-elsewhere :
    (ids n symbol : ℕ) (orders t : OrderTable) (s j : ℕ)
    → IsInPlace orders
    → s < symbol
    → replay (symbols_from ids n symbol orders) t s j ≡ t s j
symbols_from-elsewhere ids zero symbol orders t s j h below = refl
symbols_from-elsewhere ids (suc n) symbol orders t s j h below =
    let cleared = update t symbol (λ id. none) in
    let row = orders_from ids 0 (orders symbol) in
    ap (λ f. f s j) (replay-append row (symbols_from ids n (suc symbol) orders) cleared)
    ∙ symbols_from-elsewhere ids n (suc symbol) orders (replay row cleared) s j h
        (omega (arith, below))
    ∙ orders_from-elsewhere ids 0 symbol (orders symbol) cleared s j (h symbol)
        (λ e. absurd (omega (arith, e, below)))
    ∙ ap (λ f. f j) (update_ne t symbol s (λ id. none) (omega (arith, below)))

symbols_from-here :
    (ids n symbol : ℕ) (orders t : OrderTable) (s j : ℕ)
    → IsInPlace orders
    → symbol ≤ s
    → s < symbol + n
    → j < ids
    → replay (symbols_from ids n symbol orders) t s j ≡ orders s j
symbols_from-here ids zero symbol orders t s j h low high within = absurd (omega (arith, low, high))
symbols_from-here ids (suc n) symbol orders t s j h low high within =
    let cleared = update t symbol (λ id. none) in
    let row = orders_from ids 0 (orders symbol) in
    ap (λ f. f s j) (replay-append row (symbols_from ids n (suc symbol) orders) cleared)
    ∙ elim (Bool-cases (symbol == s)) [
      | inl e ↦
          let same = ==→eq symbol s e in
          symbols_from-elsewhere ids n (suc symbol) orders (replay row cleared) s j h
            (omega (arith, same))
          ∙ ap (λ k. replay row cleared k j) (sym same)
          ∙ orders_from-here ids 0 symbol (orders symbol) cleared j (h symbol) (omega arith)
              (omega (arith, within)) (ap (λ f. f j) (update_self t symbol (λ id. none)))
          ∙ ap (λ k. orders k j) same
      | inr f ↦
          let other = ==→ne symbol s f in
          symbols_from-here ids n (suc symbol) orders (replay row cleared) s j h
            (omega (arith, other, low)) (omega (arith, high)) within
    ]

updates-numbered :
    (n : ℕ) (us : List MarketUpdate)
    → map (λ (m : MarketDataPublisherMarketUpdate). m.update) (numbered n us) ≡ us
updates-numbered n [] = refl
updates-numbered n (u ∷ us) = ap (λ l. u ∷ l) (updates-numbered (suc n) us)

-- Whatever table a reader has before, with the updates of a snapshot it has, for every symbol and
-- order id that the snapshot goes through, the order of the synthesizer's table.
pub snapshot_of-replay :
    (ids symbols last : ℕ) (orders t : OrderTable) (s j : ℕ)
    → IsInPlace orders
    → s < symbols
    → j < ids
    → replay
        (map
          (λ (m : MarketDataPublisherMarketUpdate). m.update)
          (snapshot_of ids symbols last orders))
        t
        s
        j
      ≡ orders s j
snapshot_of-replay ids symbols last orders t s j h known within =
    let end = plain MarketUpdateType.snapshot_end 0 last in
    let us = snapshot_updates ids symbols last orders in
    ap (λ ms. replay (map (λ (m : MarketDataPublisherMarketUpdate). m.update) ms) t s j)
      (snapshot_of-numbered ids symbols last orders)
    ∙ ap (λ l. replay l t s j) (updates-numbered 0 us)
    ∙ ap (λ f. f s j) (replay-append (symbols_from ids symbols 0 orders) (end ∷ []) t)
    ∙ symbols_from-here ids symbols 0 orders t s j h (omega arith) (omega (arith, known)) within
