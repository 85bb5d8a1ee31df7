-- ===== src/MarketData/Snapshot/Table.antt =====
-- exchange/market_data/snapshot_synthesizer.cc: the table follows the increments.
use mathlib.Core.Option.{some-injective, none-ne-some}
use yquant_system.Base.{
  ℕ, suc, ◌+◌, ◌≡◌, ◌≢◌, Option, none, some, List, [], ◌∷◌, refl, ◌∙◌, ap, sym, subst, arith, ltb,
  ◌==◌, assert, Bool-cases, inl, inr, length, run_all, ==→eq, assert-passed, bind-passed, ◌-◌,
}
use yquant_system.Types.{max_symbols, max_order_ids}
use yquant_system.Messages.{MarketUpdateType, MarketUpdate}
use yquant_system.MarketData.Increments.{numbered}
use yquant_system.MarketData.Snapshot.{
  OrderTable, SnapshotSynthesizer, same_side, put, existing, absent, apply_to_orders,
  add_to_snapshot,
}
use yquant_system.MarketData.Snapshot.Replay.{read_update, replay, IsInPlace, with_order}

pub put-IsInPlace :
    (symbol id : ℕ) (o : Option MarketUpdate) (orders : OrderTable)
    → IsInPlace orders
    → ((u : MarketUpdate)
        → o ≡ some u
        → (u.type ≡ MarketUpdateType.add) × (u.symbol_id ≡ symbol) × (u.order_id ≡ id))
    → IsInPlace (put symbol id o orders)
put-IsInPlace symbol id o orders h new s j u e = elim (Bool-cases (s == symbol)) [
  | inr f ↦ h s j u (rw f at e)
  | inl t ↦ elim (Bool-cases (j == id)) [
    | inr f ↦ let same = ==→eq s symbol t in h s j u (ap (λ k. orders k j) same ∙ (rw (t, f) at e))
    | inl t2 ↦
        let (is_add, at_symbol, at_id) = new u (rw (t, t2) at e) in
        (is_add, at_symbol ∙ sym (==→eq s symbol t), at_id ∙ sym (==→eq j id t2))
  ]
]

existing-stands :
    (u order : MarketUpdate) (orders : OrderTable)
    → existing u orders ≡ some order
    → orders u.symbol_id u.order_id ≡ some order
existing-stands u order orders e =
    let (found, p, q) =
      bind-passed (orders u.symbol_id u.order_id)
        (λ o. assert (o.order_id == u.order_id) (assert (same_side o.side u.side) (some o))) order
        e in
    let (_, q1) = assert-passed (found.order_id == u.order_id) _ order q in
    let (_, q2) = assert-passed (same_side found.side u.side) (some found) order q1 in p ∙ q2

-- What an update did to the synthesizer's table.
pub record Applied (u : MarketUpdate) (s s' : SnapshotSynthesizer) : Type 0 where
  pub orders : s'.symbol_orders ≡ read_update u s.symbol_orders
  pub last : s'.last_inc_seq_num ≡ s.last_inc_seq_num
  pub in_place : IsInPlace s'.symbol_orders

absent-passed :
    {A : Type 0} (o : Option MarketUpdate) (k : Option A) (a : A)
    → absent o k ≡ some a
    → (o ≡ none) × (k ≡ some a)
absent-passed none k a h = (refl, h)
absent-passed (some u) k a h = absurd (none-ne-some a h)

module _ (u : MarketUpdate) (s s' : SnapshotSynthesizer) (h : IsInPlace s.symbol_orders) where
  unchanged :
      read_update u s.symbol_orders ≡ s.symbol_orders
      → Path (Option SnapshotSynthesizer) (some s) (some s')
      → Applied u s s'
  unchanged same e =
      subst (Applied u s) (some-injective s s' e)
        (record { orders = sym same; last = refl; in_place = h })

  replaced :
      (o : Option MarketUpdate) (n : ℕ)
      → read_update u s.symbol_orders ≡ put u.symbol_id u.order_id o s.symbol_orders
      → ((v : MarketUpdate)
          → o ≡ some v
          → (v.type ≡ MarketUpdateType.add)
            × (v.symbol_id ≡ u.symbol_id)
            × (v.order_id ≡ u.order_id))
      → Path
          (Option SnapshotSynthesizer)
          (some (record s {
            symbol_orders = put u.symbol_id u.order_id o s.symbol_orders;
            order_pool_in_use = n;
          }))
          (some s')
      → Applied u s s'
  replaced o n reads stands e = subst (Applied u s) (some-injective _ s' e) (record {
    orders = sym reads;
    last = refl;
    in_place = put-IsInPlace u.symbol_id u.order_id o s.symbol_orders h stands;
  })

  pub applied :
      (k : MarketUpdateType)
      → u.type ≡ k
      → k ≢ MarketUpdateType.clear
      → apply_to_orders k u s ≡ some s'
      → Applied u s s'
  unfolding apply_to_orders
  applied MarketUpdateType.add e ne run =
      let (_, r1) = assert-passed (ltb u.order_id max_order_ids) _ s' run in
      let (_, r2) = absent-passed (s.symbol_orders u.symbol_id u.order_id) _ s' r1 in
      let (_, r3) = assert-passed (ltb s.order_pool_in_use max_order_ids) _ s' r2 in
      replaced (some u) (s.order_pool_in_use + 1) (rw e refl)
        (λ v same.
          subst
            (λ w.
              (w.type ≡ MarketUpdateType.add)
              × (w.symbol_id ≡ u.symbol_id)
              × (w.order_id ≡ u.order_id))
            (some-injective u v same) (e, refl, refl))
        r3
  applied MarketUpdateType.modify e ne run =
      let (_, r1) = assert-passed (ltb u.order_id max_order_ids) _ s' run in
      let (order, found, r2) = bind-passed (existing u s.symbol_orders) _ s' r1 in
      let stands = existing-stands u order s.symbol_orders found in
      let changed = record order { quantity = u.quantity; price = u.price } in
      let (is_add, at_symbol, at_id) = h u.symbol_id u.order_id order stands in
      replaced (some changed) s.order_pool_in_use
        (rw e (ap (λ o. put u.symbol_id u.order_id (with_order u o) s.symbol_orders) stands))
        (λ v same.
          subst
            (λ w.
              (w.type ≡ MarketUpdateType.add)
              × (w.symbol_id ≡ u.symbol_id)
              × (w.order_id ≡ u.order_id))
            (some-injective changed v same) (is_add, at_symbol, at_id))
        r2
  applied MarketUpdateType.cancel e ne run =
      let (_, r1) = assert-passed (ltb u.order_id max_order_ids) _ s' run in
      let (order, found, r2) = bind-passed (existing u s.symbol_orders) _ s' r1 in
      replaced none (s.order_pool_in_use - 1) (rw e refl) (λ v same. absurd (none-ne-some v same))
        r2
  applied MarketUpdateType.clear e ne run = absurd (ne refl)
  applied MarketUpdateType.invalid e ne run = unchanged (rw e refl) run
  applied MarketUpdateType.trade e ne run = unchanged (rw e refl) run
  applied MarketUpdateType.snapshot_start e ne run = unchanged (rw e refl) run
  applied MarketUpdateType.snapshot_end e ne run = unchanged (rw e refl) run

abbrev pub NoClear : List MarketUpdate → Type 0
NoClear [] = Unit {0}
NoClear (u ∷ us) = (u.type ≢ MarketUpdateType.clear) × NoClear us

-- The synthesizer after some increments: its table is what they say, and every order is in place.
pub record Followed (us : List MarketUpdate) (s s' : SnapshotSynthesizer) : Type 0 where
  pub orders : s'.symbol_orders ≡ replay us s.symbol_orders
  pub last : s'.last_inc_seq_num ≡ s.last_inc_seq_num + length us
  pub in_place : IsInPlace s'.symbol_orders

pub follow :
    (n : ℕ) (us : List MarketUpdate) (s s' : SnapshotSynthesizer)
    → IsInPlace s.symbol_orders
    → n ≡ s.last_inc_seq_num + 1
    → NoClear us
    → run_all add_to_snapshot (numbered n us) s ≡ some s'
    → Followed us s s'
unfolding add_to_snapshot
follow n [] s s' h e nc run =
    subst (Followed [] s) (some-injective s s' run)
      (record { orders = refl; last = omega arith; in_place = h })
follow n (u ∷ us) s s' h e (ne, nc) run =
    let (s2, first, rest) = bind-passed _ (run_all add_to_snapshot (numbered (suc n) us)) s' run in
    let (_, r1) = assert-passed (ltb u.symbol_id max_symbols) _ s2 first in
    let (s1, went, r2) = bind-passed (apply_to_orders u.type u s) _ s2 r1 in
    let (_, r3) = assert-passed (n == s1.last_inc_seq_num + 1) _ s2 r2 in
    let a = applied u s s1 h u.type refl ne went in
    let same = some-injective (record s1 { last_inc_seq_num = n }) s2 r3 in
    let in_place2 = subst (λ t. IsInPlace t.symbol_orders) same a.in_place in
    let last2 : s2.last_inc_seq_num ≡ n = sym (ap (λ t. t.last_inc_seq_num) same) in
    let f = follow (suc n) us s2 s' in_place2 (omega (arith, last2)) nc rest in
    record {
      orders = f.orders ∙ ap (replay us) (sym (ap (λ t. t.symbol_orders) same) ∙ a.orders);
      last = omega (arith, f.last, last2, e);
      in_place = f.in_place;
    }
