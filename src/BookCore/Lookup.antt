-- ===== src/BookCore/Lookup.antt =====
-- exchange/matcher/book_core.cc: FindOrder, and the resting order that it leads to.
use yquant_system.Base.{
  ℕ, ◌<◌, ◌≡◌, Bool, true, false, none, some, List, ◌∷◌, ◌++◌, refl, sym, ◌∙◌, ap, subst, inl, inr,
  lt→ltb, Option-cases,
}
use yquant_system.Types.{buy, is_buy, max_num_clients, max_order_ids}
use yquant_system.Messages.{ClientResponse, MarketUpdate}
use yquant_system.MemPool.{object}
use yquant_system.Bitmap.{tick_count}
use yquant_system.PriceLevels.{owns}
use yquant_system.PriceLevels.Queue.{Order, node_of, first_or, last_or}
use yquant_system.PriceLevels.Inv.{ref_at, Identity, identity_at, order_identity, LevelInv}
use yquant_system.PriceLevels.Fill.{node_at}
use yquant_system.BookCore.{BookCore, at_side, find_order}
use yquant_system.BookCore.Requests.{side_of}
use yquant_system.BookCore.Inv.{BookInv, BookQueues, side_of_book, lookup, found_in}

pub is_buy-side_of_book : (k : Bool) → is_buy (side_of_book k) ≡ k
is_buy-side_of_book true = refl
is_buy-side_of_book false = refl

-- Messages do not concern the invariant.
pub output-BookInv :
    (b : BookCore) (q : BookQueues) (rs : List ClientResponse) (us : List MarketUpdate)
    → BookInv b q
    → BookInv (record b { client_responses = rs; market_updates = us }) q
output-BookInv b q rs us v = record {
  pool = v.pool;
  capacity = v.capacity;
  side = v.side;
  side_inv = v.side_inv;
  located = v.located;
  bounded = v.bounded;
  indexed = v.indexed;
}

pub find_order-lookup :
    (c oid : ℕ) (b : BookCore)
    → c < max_num_clients
    → oid < max_order_ids
    → find_order c oid b ≡ some (lookup b.orders c oid)
unfolding find_order
find_order-lookup c oid b h g = elim (Option-cases (b.orders c)) [
  | inl e ↦ rw (lt→ltb c max_num_clients h, e)
  | inr (table, e) ↦ rw (lt→ltb c max_num_clients h, e) (rw (lt→ltb oid max_order_ids g))
]

pub side_of-side_of_book :
    (b : BookCore) (k : Bool) (t : ℕ)
    → b.bids.side ≡ buy
    → t < tick_count
    → side_of b (ref_at (side_of_book k) t) ≡ side_of_book k
unfolding side_of owns
side_of-side_of_book b true t e h = rw (e, lt→ltb t tick_count h)
side_of-side_of_book b false t e h = rw e

-- The resting order that an entry of the index leads to.
pub record Found (b : BookCore) (q : BookQueues) (c oid j : ℕ) : Type 0 where
  pub k : Bool
  pub t : ℕ
  pub xs : List Order
  pub o : Order
  pub ys : List Order
  pub inside : t < tick_count
  pub queue : q k t ≡ xs ++ o ∷ ys
  pub here : o.ptr ≡ j
  pub client : o.client_id ≡ c
  pub number : o.client_order_id ≡ oid

pub node_in :
    (b : BookCore) (q : BookQueues) (k : Bool) (t : ℕ) (xs ys : List Order) (o : Order)
    → BookInv b q
    → q k t ≡ xs ++ o ∷ ys
    → b.order_pool.slot o.ptr
      ≡ object (node_of (ref_at (side_of_book k) t) (last_or none xs) (first_or none ys) o)
node_in b q k t xs ys o v eq =
    subst
      (λ s.
        b.order_pool.slot o.ptr
        ≡ object (node_of (ref_at s t) (last_or none xs) (first_or none ys) o))
      (v.side k)
      (node_at b.order_pool.slot (ref_at (at_side k b).side t) xs ys o
        (subst (LevelInv b.order_pool.slot (ref_at (at_side k b).side t) ((at_side k b).levels t))
          eq ((v.side_inv k).level_inv t)).seg)

pub found :
    (b : BookCore) (q : BookQueues) (c oid j : ℕ)
    → BookInv b q
    → lookup b.orders c oid ≡ some j
    → Found b q c oid j
found b q c oid j v e =
    let (d, f, g, h) = v.indexed c oid j e in
    let (k, t, inside, level, m) = v.located j d f in
    let (xs, o, ys, eq, n) = found_in j (q k t) m in
    let same : some (order_identity (ref_at (side_of_book k) t) o) ≡ some d =
      sym (ap identity_at (node_in b q k t xs ys o v eq))
      ∙ ap (λ i. identity_at (b.order_pool.slot i)) n
      ∙ f in
    record {
      k = k;
      t = t;
      xs = xs;
      o = o;
      ys = ys;
      inside = inside;
      queue = eq;
      here = n;
      client = client_eq (order_identity (ref_at (side_of_book k) t) o) d same ∙ g;
      number = number_eq (order_identity (ref_at (side_of_book k) t) o) d same ∙ h;
    }
  where
    client_eq : (x y : Identity) → some x ≡ some y → x.client_id ≡ y.client_id
    client_eq x y f = cc

    number_eq : (x y : Identity) → some x ≡ some y → x.client_order_id ≡ y.client_order_id
    number_eq x y f = cc
