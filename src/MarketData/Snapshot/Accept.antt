-- ===== src/MarketData/Snapshot/Accept.antt =====
-- exchange/market_data/snapshot_synthesizer.cc: the increments that the synthesizer takes without
-- ending the process, and what a snapshot then says of them.
use mathlib.Core.Option.{none-ne-some}
use yquant_system.Base.{
  ℕ, suc, ◌+◌, ◌-◌, ◌<◌, ◌≡◌, true, none, some, List, [], ◌∷◌, ◌++◌, refl, ◌∙◌, ap, sym, subst,
  arith, map, length, run_all, lt→ltb, ==_self, eq→==,
}
use yquant_system.Base.Int.{pos}
use yquant_system.Types.{no_side, max_symbols, max_order_ids}
use yquant_system.Messages.{MarketUpdateType, MarketUpdate}
use yquant_system.MarketData
use yquant_system.MarketData.{MarketDataPublisherMarketUpdate, MarketDataPublisher, publish_all}
use yquant_system.MarketData.Increments.{numbered, publish_all-Published}
use yquant_system.MarketData.Snapshot.{
  OrderTable, SnapshotSynthesizer, create, same_side, put, existing, apply_to_orders,
  add_to_snapshot, snapshot_of, publish_snapshot,
}
use yquant_system.MarketData.Snapshot.Stream.{symbols_from, snapshot_of-numbered}
use yquant_system.MarketData.Snapshot.Replay.{
  read_as, read_update, replay, IsInPlace, with_order, snapshot_of-replay,
}
use yquant_system.MarketData.Snapshot.Table.{NoClear, follow, applied}

-- Symbol and order id are inside the table.
abbrev pub InTable : MarketUpdate → Type 0
InTable u = (u.symbol_id < max_symbols) × (u.order_id < max_order_ids)

abbrev pub HasOrder : MarketUpdate → OrderTable → Type 0
HasOrder u t =
    (order : MarketUpdate) × (t u.symbol_id u.order_id ≡ some order)
    × (same_side order.side u.side ≡ true)

-- The update fits the live orders, of which there are `n`.
abbrev pub FitsAs : MarketUpdateType → MarketUpdate → OrderTable → ℕ → Type 0
FitsAs MarketUpdateType.add u t n =
    InTable u × (t u.symbol_id u.order_id ≡ none) × n < max_order_ids
FitsAs MarketUpdateType.modify u t n = InTable u × HasOrder u t
FitsAs MarketUpdateType.cancel u t n = InTable u × HasOrder u t
FitsAs MarketUpdateType.clear u t n = ⊥
FitsAs _ u t n = u.symbol_id < max_symbols

abbrev pub count_as : MarketUpdateType → ℕ → ℕ
count_as MarketUpdateType.add n = n + 1
count_as MarketUpdateType.cancel n = n - 1
count_as _ n = n

abbrev pub AllFit : List MarketUpdate → OrderTable → ℕ → Type 0
AllFit [] t n = Unit {0}
AllFit (u ∷ us) t n = FitsAs u.type u t n × AllFit us (read_update u t) (count_as u.type n)

existing-found :
    (u : MarketUpdate) (t : OrderTable)
    → IsInPlace t
    → (found : HasOrder u t) → existing u t ≡ some found.0
existing-found u t h (order, e, side) =
    let (_, _, id) = h u.symbol_id u.order_id order e in rw (e, id, ==_self u.order_id, side) refl

-- An update that fits is applied, and leaves the table that it says and the number of live orders.
abbrev TakenAs : MarketUpdateType → MarketUpdate → SnapshotSynthesizer → Type 0
TakenAs k u s =
    (u.symbol_id < max_symbols)
    × (s1 : SnapshotSynthesizer) × (apply_to_orders k u s ≡ some s1)
    × (s1.symbol_orders ≡ read_as k u s.symbol_orders)
    × (s1.order_pool_in_use ≡ count_as k s.order_pool_in_use)
    × (s1.last_inc_seq_num ≡ s.last_inc_seq_num)

taken :
    (k : MarketUpdateType) (u : MarketUpdate) (s : SnapshotSynthesizer)
    → IsInPlace s.symbol_orders
    → FitsAs k u s.symbol_orders s.order_pool_in_use
    → TakenAs k u s
unfolding apply_to_orders
taken MarketUpdateType.add u s h ((known, inside), free, room) = (
  known,
  record s {
    symbol_orders = put u.symbol_id u.order_id (some u) s.symbol_orders;
    order_pool_in_use = s.order_pool_in_use + 1;
  },
  rw (lt→ltb u.order_id max_order_ids inside, free, lt→ltb s.order_pool_in_use max_order_ids room)
      refl,
  refl,
  refl,
  refl,
)
taken MarketUpdateType.modify u s h ((known, inside), (order, e, side)) = (
  known,
  record s {
    symbol_orders =
        put u.symbol_id u.order_id (some (record order { quantity = u.quantity; price = u.price }))
          s.symbol_orders;
  },
  rw (lt→ltb u.order_id max_order_ids inside, existing-found u s.symbol_orders h (order, e, side))
      refl,
  ap (λ o. put u.symbol_id u.order_id (with_order u o) s.symbol_orders) (sym e),
  refl,
  refl,
)
taken MarketUpdateType.cancel u s h ((known, inside), (order, e, side)) = (
  known,
  record s {
    symbol_orders = put u.symbol_id u.order_id none s.symbol_orders;
    order_pool_in_use = s.order_pool_in_use - 1;
  },
  rw (lt→ltb u.order_id max_order_ids inside, existing-found u s.symbol_orders h (order, e, side))
      refl,
  refl,
  refl,
  refl,
)
taken MarketUpdateType.clear u s h none_fit = absurd none_fit
taken MarketUpdateType.invalid u s h known = (known, s, refl, refl, refl, refl)
taken MarketUpdateType.trade u s h known = (known, s, refl, refl, refl, refl)
taken MarketUpdateType.snapshot_start u s h known = (known, s, refl, refl, refl, refl)
taken MarketUpdateType.snapshot_end u s h known = (known, s, refl, refl, refl, refl)

AllFit-NoClear : (us : List MarketUpdate) (t : OrderTable) (n : ℕ) → AllFit us t n → NoClear us
AllFit-NoClear [] t n fits = tt
AllFit-NoClear (u ∷ us) t n (fit, fits) = (
  λ e. subst (λ k. FitsAs k u t n) e fit,
  AllFit-NoClear us (read_update u t) (count_as u.type n) fits,
)

accept :
    (n : ℕ) (us : List MarketUpdate) (s : SnapshotSynthesizer)
    → IsInPlace s.symbol_orders
    → n ≡ s.last_inc_seq_num + 1
    → AllFit us s.symbol_orders s.order_pool_in_use
    → (s' : SnapshotSynthesizer) × (run_all add_to_snapshot (numbered n us) s ≡ some s')
unfolding add_to_snapshot
accept n [] s h e fits = (s, refl)
accept n (u ∷ us) s h e (fit, fits) =
    let (known, s1, went, orders, count, last) = taken u.type u s h fit in
    let s2 = record s1 { last_inc_seq_num = n } in
    let a =
      applied u s s1 h u.type refl
        (AllFit-NoClear (u ∷ us) s.symbol_orders s.order_pool_in_use (fit, fits)).0 went in
    let fits2 = subst (λ t. AllFit us t (count_as u.type s.order_pool_in_use)) (sym orders) fits in
    let fits3 = subst (AllFit us s1.symbol_orders) (sym count) fits2 in
    let (s', run) = accept (suc n) us s2 a.in_place (omega arith) fits3 in
    (
      s',
      rw
          (
            lt→ltb u.symbol_id max_symbols known,
            went,
            eq→== n (s1.last_inc_seq_num + 1) (omega (arith, last, e)),
          )
          run,
    )

-- A message at the start or the end of a snapshot, with the number of the last increment.
abbrev pub mark : MarketUpdateType → ℕ → MarketUpdate
mark type last = record {
  type = type;
  symbol_id = 0;
  order_id = last;
  side = no_side;
  price = pos 0;
  quantity = 0;
  priority = 0;
}

-- The messages of a cycle: consecutive numbers from 0 on, and between the marks the orders.
abbrev pub IsMarked : ℕ → List MarketDataPublisherMarketUpdate → Type 0
IsMarked last cycle =
    (body : List MarketUpdate) × (cycle
      ≡ numbered 0 (
          mark MarketUpdateType.snapshot_start last ∷ body
          ++ mark MarketUpdateType.snapshot_end last ∷ []))

-- The updates of the matching engine, through the publisher and into the synthesizer.
abbrev pub SnapshotAgrees : List MarketUpdate → Type 0
SnapshotAgrees us =
    (s : SnapshotSynthesizer) × (cycle : List MarketDataPublisherMarketUpdate) × (run_all
        add_to_snapshot (publish_all us yquant_system.MarketData.create).snapshot_md_updates create
      ≡ some s)
    × (s.last_inc_seq_num ≡ length us)
    × ((publish_snapshot s).snapshots ≡ s.snapshots ++ cycle)
    × IsMarked (length us) cycle
    × ((t : OrderTable) (symbol id : ℕ)
        → symbol < max_symbols
        → id < max_order_ids
        → replay (map (λ (m : MarketDataPublisherMarketUpdate). m.update) cycle) t symbol id
          ≡ replay us (λ _ _. none) symbol id)

abbrev marked : OrderTable → ℕ → List MarketDataPublisherMarketUpdate
marked orders last = numbered 0 (
    mark MarketUpdateType.snapshot_start last ∷ symbols_from max_order_ids max_symbols 0 orders
    ++ mark MarketUpdateType.snapshot_end last ∷ [])

create-IsInPlace : IsInPlace create.symbol_orders
unfolding create
create-IsInPlace symbol id u e = absurd (none-ne-some u e)

-- Updates that each fit the orders that are live before them are all taken by the snapshot
-- synthesizer in the form in which the publisher numbers them, and the last number that it then
-- has is the number of updates; a snapshot cycle after them has the numbers 0, 1, ..., starts with
-- a start mark and ends with an end mark, which both carry the number of updates, and gives its
-- reader, whatever table the reader had before, for every symbol and order id of the table the
-- live order that a reader of all the updates has.
pub snapshot-agrees : (us : List MarketUpdate) → AllFit us (λ _ _. none) 0 → SnapshotAgrees us
unfolding create publish_snapshot yquant_system.MarketData.create
snapshot-agrees us fits =
    let (s, run) = accept 1 us create create-IsInPlace (omega arith) fits in
    let f =
      follow 1 us create s create-IsInPlace (omega arith) (AllFit-NoClear us (λ _ _. none) 0 fits)
        run in
    let cycle = snapshot_of max_order_ids max_symbols s.last_inc_seq_num s.symbol_orders in
    let sent = (publish_all-Published us yquant_system.MarketData.create).forwarded in
    (
      s,
      cycle,
      ap (λ ms. run_all add_to_snapshot ms create) sent ∙ run,
      omega (arith, f.last),
      refl,
      (
        symbols_from max_order_ids max_symbols 0 s.symbol_orders,
        snapshot_of-numbered max_order_ids max_symbols s.last_inc_seq_num s.symbol_orders
            ∙ ap (marked s.symbol_orders) (omega (arith, f.last)),
      ),
      λ t symbol id known inside.
          snapshot_of-replay max_order_ids max_symbols s.last_inc_seq_num s.symbol_orders t symbol
            id f.in_place known inside
          ∙ ap (λ o. o symbol id) f.orders,
    )
