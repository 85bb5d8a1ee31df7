-- ===== src/MatchingEngine/Serve.antt =====
-- exchange/matcher/matching_engine.cc: ProcessClientRequest keeps every book valid.
use yquant_system.Base.{
  ℕ, ◌<◌, ◌≡◌, ◌≢◌, some, ◌∙◌, ap, ◌==◌, update, update_ne, lt→ltb, Bool-cases, Option-cases, inl,
  inr,
}
use yquant_system.Base.Int.{pos}
use yquant_system.Types.{max_symbols, max_num_clients, max_order_ids, u32_mod}
use yquant_system.Messages.{ClientRequestType, MatchingEngineClientRequest}
use yquant_system.Bitmap.{tick_count}
use yquant_system.PriceBand.{to_tick}
use yquant_system.BookCore.{BookCore}
use yquant_system.BookCore.Inv.{BookInv, BookQueues, Resting, lookup}
use yquant_system.BookCore.Lookup.{output-BookInv}
use yquant_system.BookCore.Cancel.{cancel-Found, cancel-unknown}
use yquant_system.BookCore.Add.{AddDone, add-AddDone}
use yquant_system.MatchingEngine.{MatchingEngine, book_of, with_book, serve, process_client_request}

-- Every book of the engine is valid, with only resting orders that have something left.
abbrev pub EngineInv : MatchingEngine → (ℕ → BookQueues) → Type 0
EngineInv e qs =
    (symbol : ℕ)
    → symbol < max_symbols
    → BookInv (e.symbol_order_book symbol) (qs symbol) × Resting (qs symbol)

-- A request that was served: only the book of its symbol changed.
abbrev pub Served : MatchingEngineClientRequest → MatchingEngine → (ℕ → BookQueues) → Type 0
Served r e qs =
    (e' : MatchingEngine) × (q' : BookQueues) × (process_client_request r e ≡ some e')
    × EngineInv e' (update qs r.symbol_id q')
    × ((symbol : ℕ)
        → symbol ≢ r.symbol_id
        → e'.symbol_order_book symbol ≡ e.symbol_order_book symbol)

served :
    (r : MatchingEngineClientRequest) (e : MatchingEngine) (qs : ℕ → BookQueues) (b' : BookCore)
    (q' : BookQueues)
    → EngineInv e qs
    → r.symbol_id < max_symbols
    → serve r.type r (book_of r.symbol_id e) ≡ some b'
    → BookInv b' q'
    → Resting q'
    → Served r e qs
unfolding process_client_request
served r e qs b' q' v h run v' r' = (
  with_book r.symbol_id b' e,
  q',
  rw (lt→ltb r.symbol_id max_symbols h, run),
  λ symbol l. elim (Bool-cases (symbol == r.symbol_id)) [
    | inl f ↦ rw f (v', r')
    | inr f ↦ rw f (v symbol l)
  ],
  λ symbol ne. update_ne e.symbol_order_book r.symbol_id symbol b' ne,
)

settled :
    (b b' : BookCore) (q : BookQueues) (r : MatchingEngineClientRequest) (t : ℕ)
    → AddDone b q r.client_id r.order_id r.side t r.quantity b'
    → (q' : BookQueues) × BookInv b' q' × Resting q'
settled b b' q r t d = elim d.entered [
  | inl (_, v, s) ↦ (_, v, s)
  | inr (_, _, _, _, _, _, v, s) ↦ (_, v, s)
]

-- When every book of the engine is valid and every resting order has something left, a NEW request
-- for a known symbol, with ids inside the index, a 32-bit quantity, a price with a tick of the
-- grid and room for one more node in the pool of its book, is served: every book is valid with
-- resting orders that have something left, and no other book changed.
pub process_new-Served :
    (r : MatchingEngineClientRequest) (e : MatchingEngine) (qs : ℕ → BookQueues) (t : ℕ)
    → EngineInv e qs
    → r.type ≡ ClientRequestType.new
    → r.symbol_id < max_symbols
    → r.client_id < max_num_clients
    → r.order_id < max_order_ids
    → r.quantity < u32_mod
    → to_tick (e.symbol_order_book r.symbol_id).band r.price ≡ pos t
    → t < tick_count
    → (e.symbol_order_book r.symbol_id).order_pool.in_use
      < (e.symbol_order_book r.symbol_id).order_pool.capacity
    → Served r e qs
unfolding serve
process_new-Served r e qs t v type sw cw ow qw limit inside room =
    let s = r.symbol_id in
    let (bv, br) = v s sw in
    let (b', run, d) =
      add-AddDone (book_of s e) (qs s) r.client_id r.order_id r.side t r.price r.quantity
        (output-BookInv (e.symbol_order_book s) (qs s) e.outgoing_responses e.outgoing_updates bv)
        br room cw ow limit inside qw in
    let (q', v', r') = settled (book_of s e) b' (qs s) r t d in
    served r e qs b' q' v sw (ap (λ k. serve k r (book_of s e)) type ∙ run) v' r'

-- When every book of the engine is valid and every resting order has something left, a CANCELED
-- request for a known symbol with ids inside the index is served, whether or not the order is
-- known: every book is valid with resting orders that have something left, and no other book
-- changed.
pub process_canceled-Served :
    (r : MatchingEngineClientRequest) (e : MatchingEngine) (qs : ℕ → BookQueues)
    → EngineInv e qs
    → r.type ≡ ClientRequestType.canceled
    → r.symbol_id < max_symbols
    → r.client_id < max_num_clients
    → r.order_id < max_order_ids
    → Served r e qs
unfolding serve
process_canceled-Served r e qs v type sw cw ow =
    let s = r.symbol_id in
    let b = book_of s e in
    let (bv, br) = v s sw in
    let bv' =
      output-BookInv (e.symbol_order_book s) (qs s) e.outgoing_responses e.outgoing_updates bv in
    let by_type = ap (λ k. serve k r b) type in
    elim (Option-cases (lookup b.orders r.client_id r.order_id)) [
      | inl none_found ↦
          served r e qs _ (qs s) v sw
            (by_type ∙ cancel-unknown b r.client_id r.order_id cw ow none_found)
            (output-BookInv b (qs s) _ b.market_updates bv') br
      | inr (j, found) ↦
          let (f, b', run, v', r', _, _, _) =
            cancel-Found b (qs s) r.client_id r.order_id j bv' br cw ow found in
          served r e qs b' _ v sw (by_type ∙ run) v' r'
    ]
