-- ===== src/BookCore/Cancel.antt =====
-- exchange/matcher/book_core.cc: what Cancel does.
use yquant_system.Base.{
  ℕ, ◌<◌, ◌≡◌, ◌≢◌, Bool, true, none, some, List, [], ◌∷◌, ◌++◌, refl, sym, ◌∙◌, ap, subst,
}
use yquant_system.Base.Int.{pos}
use yquant_system.Types.{no_side, max_num_clients, max_order_ids}
use yquant_system.Messages.{ClientResponse, ClientResponseType, MarketUpdate, MarketUpdateType}
use yquant_system.MemPool.Free.{load-eq}
use yquant_system.Bitmap.{tick_count}
use yquant_system.PriceBand.{to_price}
use yquant_system.PriceLevels.{PriceLevels, Pool, remove_order}
use yquant_system.PriceLevels.Queue.{Order}
use yquant_system.PriceLevels.Orders.{AllResting-middle, AllResting-drop}
use yquant_system.PriceLevels.Inv.{Identity, identity_at, AllResting}
use yquant_system.PriceLevels.Remove.{remove_order-Removed}
use yquant_system.BookCore.{
  BookCore, at_side, set_side, response, market_update, send_client_response, send_market_update,
}
use yquant_system.BookCore.Requests.{cancel, cancel_resting}
use yquant_system.BookCore.Inv.{BookInv, BookQueues, side_of_book, lookup, Resting}
use yquant_system.BookCore.Steps.{set_queue, set_queue-Resting}
use yquant_system.BookCore.Changes.{remove-BookInv}
use yquant_system.BookCore.Index.{cleared, unindex_order-eq, lookup-cleared}
use yquant_system.BookCore.Lookup.{
  is_buy-side_of_book, output-BookInv, find_order-lookup, side_of-side_of_book, Found, node_in,
  found,
}

-- The book once Cancel has taken out order `o` at tick `t` of side `k`.
abbrev pub canceled_response : BookCore → Bool → ℕ → Order → ClientResponse
canceled_response b k t o =
    response ClientResponseType.canceled o.client_id b.symbol_id o.client_order_id o.market_order_id
      (side_of_book k) (to_price b.band (pos t)) 0 o.remaining

abbrev pub cancel_update : BookCore → Bool → ℕ → Order → MarketUpdate
cancel_update b k t o =
    market_update MarketUpdateType.cancel b.symbol_id o.market_order_id (side_of_book k)
      (to_price b.band (pos t)) 0 0

abbrev told : BookCore → Bool → ℕ → Order → BookCore
told b k t o = record b {
  client_responses = b.client_responses ++ canceled_response b k t o ∷ [];
  market_updates = b.market_updates ++ cancel_update b k t o ∷ [];
}

cancel_resting-eq :
    (b : BookCore) (q : BookQueues) (k : Bool) (t : ℕ) (xs ys : List Order) (o : Order) (p' : Pool)
    (l' : PriceLevels)
    → BookInv b q
    → t < tick_count
    → q k t ≡ xs ++ o ∷ ys
    → o.client_id < max_num_clients
    → o.client_order_id < max_order_ids
    → remove_order b.order_pool (at_side k b) o.ptr ≡ some (p', l')
    → cancel_resting o.client_id o.client_order_id o.ptr b
      ≡ some (
          set_side k p' l'
            (record (told b k t o) { orders = cleared b.orders o.client_id o.client_order_id }))
unfolding cancel_resting send_client_response send_market_update
cancel_resting-eq b q k t xs ys o p' l' v inside eq ch oh e = rw (
  load-eq b.order_pool o.ptr _ (node_in b q k t xs ys o v eq),
  side_of-side_of_book b k t (v.side true) inside,
  unindex_order-eq o.client_id o.client_order_id (told b k t o) ch oh,
  is_buy-side_of_book k,
  e,
)

-- On a valid book where every resting order has something left, Cancel of an order number inside
-- the index that the index leads to returns; the order it leads to stands in a queue and has that
-- client and number; it leaves its queue, its entry of the index is cleared, one CANCELED response
-- and one CANCEL update carry the side and the price of its queue, the book is valid and every
-- resting order has something left.
pub cancel-Found :
    (b : BookCore) (q : BookQueues) (c oid j : ℕ)
    → BookInv b q
    → Resting q
    → c < max_num_clients
    → oid < max_order_ids
    → lookup b.orders c oid ≡ some j
    → (f : Found b q c oid j) × (b' : BookCore) × (cancel c oid b ≡ some b')
      × BookInv b' (set_queue f.k f.t (f.xs ++ f.ys) q)
      × Resting (set_queue f.k f.t (f.xs ++ f.ys) q)
      × (b'.client_responses ≡ b.client_responses ++ canceled_response b f.k f.t f.o ∷ [])
      × (b'.market_updates ≡ b.market_updates ++ cancel_update b f.k f.t f.o ∷ [])
      × (b'.orders ≡ cleared b.orders c oid)
unfolding cancel
cancel-Found b q c oid j v resting ch oh e =
    let f = found b q c oid j v e in
    let word = AllResting-middle f.xs f.ys f.o (subst AllResting f.queue (resting f.k f.t)) in
    let (p', l', g, r) =
      remove_order-Removed b.order_pool (at_side f.k b) (q f.k) f.t f.xs f.ys f.o v.pool
        (v.side_inv f.k) f.inside f.queue word.1 in
    let w =
      remove-BookInv (told b f.k f.t f.o) q f.k f.t f.xs f.ys f.o p' l' (cleared b.orders c oid)
        (output-BookInv b q _ _ v) f.queue r (keep f) in
    (
      f,
      _,
      rw (find_order-lookup c oid b ch oh, e) (by_ids f p' l' g),
      w,
      set_queue-Resting q f.k f.t (f.xs ++ f.ys) resting
          (AllResting-drop f.xs f.ys f.o (subst AllResting f.queue (resting f.k f.t))),
      refl,
      refl,
      refl,
    )
  where
    elsewhere :
        (f : Found b q c oid j) (c' oid' i : ℕ)
        → lookup b.orders c' oid' ≡ some i
        → (c' ≡ c → oid' ≢ oid)
        → i ≢ f.o.ptr
    elsewhere f c' oid' i h ne m =
        let (d, x, y, z) = v.indexed c oid j e in
        let (d', x', y', z') = v.indexed c' oid' i h in
        let same : identity_at (b.order_pool.slot i) ≡ identity_at (b.order_pool.slot j) =
          ap (λ n. identity_at (b.order_pool.slot n)) (m ∙ f.here) in
        let eq : d' ≡ d = some_eq (sym x' ∙ same ∙ x) in
        ne (sym y' ∙ ap (λ n. n.client_id) eq ∙ y) (sym z' ∙ ap (λ n. n.client_order_id) eq ∙ z)
      where
        some_eq : {m n : Identity} → some m ≡ some n → m ≡ n
        some_eq k = cc

    keep :
        (f : Found b q c oid j) (c' oid' i : ℕ)
        → lookup (cleared b.orders c oid) c' oid' ≡ some i
        → (lookup b.orders c' oid' ≡ some i) × (i ≢ f.o.ptr)
    keep f c' oid' i h =
        let (h', ne) = lookup-cleared b.orders c oid c' oid' i h in
        (h', elsewhere f c' oid' i h' ne)

    by_ids :
        (f : Found b q c oid j) (p' : Pool) (l' : PriceLevels)
        → remove_order b.order_pool (at_side f.k b) f.o.ptr ≡ some (p', l')
        → cancel_resting c oid j b
          ≡ some
              (set_side f.k p' l' (record (told b f.k f.t f.o) { orders = cleared b.orders c oid }))
    by_ids f p' l' g =
        subst
          (λ n.
            cancel_resting c oid n b
            ≡ some (
                set_side f.k p' l'
                  (record (told b f.k f.t f.o) { orders = cleared b.orders c oid })))
          f.here
          (subst
            (λ n.
              cancel_resting c n f.o.ptr b
              ≡ some (
                  set_side f.k p' l'
                    (record (told b f.k f.t f.o) { orders = cleared b.orders c n })))
            f.number
            (subst
              (λ n.
                cancel_resting n f.o.client_order_id f.o.ptr b
                ≡ some (
                    set_side f.k p' l' (record (told b f.k f.t f.o) {
                      orders = cleared b.orders n f.o.client_order_id;
                    })))
              f.client
              (cancel_resting-eq b q f.k f.t f.xs f.ys f.o p' l' v f.inside f.queue
                (subst (λ n. n < max_num_clients) (sym f.client) ch)
                (subst (λ n. n < max_order_ids) (sym f.number) oh) g)))

-- Cancel of an order number that the index does not know answers CANCEL_REJECTED and changes nothing
-- else.
pub cancel-unknown :
    (b : BookCore) (c oid : ℕ)
    → c < max_num_clients
    → oid < max_order_ids
    → lookup b.orders c oid ≡ none
    → cancel c oid b
      ≡ some (record b {
        client_responses =
            b.client_responses
            ++ response ClientResponseType.cancel_rejected c b.symbol_id oid 0 no_side (pos 0) 0 0
              ∷ [];
      })
unfolding cancel send_client_response
cancel-unknown b c oid h g e = rw (find_order-lookup c oid b h g, e)
