-- ===== src/MarketDataConsumer/Recovery.antt =====
-- trading/market_data/market_data_consumer.cpp: the prefix of the exchange's increments that a table of
-- orders stands for.
use mathlib.Core.Option.{some-injective, none-ne-some}
use yquant_system.Base.{
  ℕ, zero, suc, ◌≡◌, Option, none, some, List, [], ◌∷◌, refl, ◌∙◌, ap, sym, subst, ◌==◌, Bool-cases,
  inl, inr, take, ==→eq,
}
use yquant_system.Messages.{MarketUpdateType, MarketUpdate}
use yquant_system.MarketData.Snapshot.{OrderTable, put}
use yquant_system.MarketData.Snapshot.Replay.{read_as, read_update, replay, with_order}
use yquant_system.MarketDataConsumer.{push}

abbrev pub at_index : ℕ → List MarketUpdate → Option MarketUpdate
at_index n [] = none
at_index zero (u ∷ us) = some u
at_index (suc n) (u ∷ us) = at_index n us

-- The tables agree on the symbols and order ids of a region.
module _ (InRegion : ℕ → ℕ → Type 0) where
  abbrev pub Agree : OrderTable → OrderTable → Type 0
  Agree t v = (symbol id : ℕ) → InRegion symbol id → t symbol id ≡ v symbol id

  put-Agree :
      (s j : ℕ) (o p : Option MarketUpdate) (t v : OrderTable)
      → Agree t v
      → (InRegion s j → o ≡ p)
      → Agree (put s j o t) (put s j p v)
  put-Agree s j o p t v h e symbol id r = elim (Bool-cases (symbol == s)) [
    | inr f ↦ rw f (h symbol id r)
    | inl a ↦ elim (Bool-cases (id == j)) [
      | inr f ↦
          let same = ==→eq symbol s a in
          rw (a, f) (ap (λ k. t k id) (sym same) ∙ h symbol id r ∙ ap (λ k. v k id) same)
      | inl b ↦
          rw (a, b)
            (e (
              subst (λ k. InRegion k j) (==→eq symbol s a)
                (subst (InRegion symbol) (==→eq id j b) r)))
    ]
  ]

  pub read_as-Agree :
      (k : MarketUpdateType) (u : MarketUpdate) (t v : OrderTable)
      → Agree t v
      → Agree (read_as k u t) (read_as k u v)
  read_as-Agree MarketUpdateType.clear u t v h = λ symbol id r.
      elim (Bool-cases (symbol == u.symbol_id)) [ inl a ↦ rw a refl | inr f ↦ rw f (h symbol id r) ]
  read_as-Agree MarketUpdateType.add u t v h =
      put-Agree u.symbol_id u.order_id (some u) (some u) t v h (λ _. refl)
  read_as-Agree MarketUpdateType.modify u t v h =
      put-Agree u.symbol_id u.order_id (with_order u (t u.symbol_id u.order_id))
        (with_order u (v u.symbol_id u.order_id)) t v h
        (λ r. ap (with_order u) (h u.symbol_id u.order_id r))
  read_as-Agree MarketUpdateType.cancel u t v h =
      put-Agree u.symbol_id u.order_id none none t v h (λ _. refl)
  read_as-Agree MarketUpdateType.invalid u t v h = h
  read_as-Agree MarketUpdateType.trade u t v h = h
  read_as-Agree MarketUpdateType.snapshot_start u t v h = h
  read_as-Agree MarketUpdateType.snapshot_end u t v h = h

abbrev pub empty : OrderTable
empty = λ _ _. none

-- The live orders after the first n increments.
abbrev pub table_after : List MarketUpdate → ℕ → OrderTable
table_after us n = replay (take n us) empty

replay-take_next :
    (us : List MarketUpdate) (n : ℕ) (u : MarketUpdate) (t : OrderTable)
    → at_index n us ≡ some u
    → replay (take (suc n) us) t ≡ read_update u (replay (take n us) t)
replay-take_next [] n u t h = absurd (none-ne-some u h)
replay-take_next (v ∷ us) zero u t h = ap (λ w. read_update w t) (some-injective v u h)
replay-take_next (v ∷ us) (suc n) u t h = replay-take_next us n u (read_update v t) h

pub table_after-next :
    (us : List MarketUpdate) (n : ℕ) (u : MarketUpdate)
    → at_index n us ≡ some u
    → table_after us (suc n) ≡ read_update u (table_after us n)
table_after-next us n u h = replay-take_next us n u empty h

push-kind :
    (k : MarketUpdateType) (u : MarketUpdate) (events : List MarketUpdate) (t : OrderTable)
    → u.type ≡ k
    → replay (push u events) t ≡ replay events (read_as k u t)
push-kind MarketUpdateType.invalid u events t e = rw e refl
push-kind MarketUpdateType.clear u events t e = rw e refl
push-kind MarketUpdateType.add u events t e = rw e refl
push-kind MarketUpdateType.modify u events t e = rw e refl
push-kind MarketUpdateType.cancel u events t e = rw e refl
push-kind MarketUpdateType.trade u events t e = rw e refl
push-kind MarketUpdateType.snapshot_start u events t e = rw e refl
push-kind MarketUpdateType.snapshot_end u events t e = rw e refl

pub replay-push :
    (u : MarketUpdate) (events : List MarketUpdate) (t : OrderTable)
    → replay (push u events) t ≡ replay events (read_update u t)
replay-push u events t = push-kind u.type u events t refl
