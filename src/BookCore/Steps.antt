-- ===== src/BookCore/Steps.antt =====
-- exchange/matcher/book_core.cc: a change of one level of one side keeps the invariant of the book.
use yquant_system.Base.{
  ℕ, ◌<◌, ◌≡◌, ◌⊎◌, Bool, true, false, some, List, refl, sym, ◌∙◌, has, update, update_self, subst,
  ◌==◌, Bool-cases, inl, inr, ==→eq,
}
use yquant_system.Types.{max_num_clients, max_order_ids}
use yquant_system.MemPool.Inv.{IsValid}
use yquant_system.PriceLevels.{PriceLevels, Pool}
use yquant_system.PriceLevels.Queue.{Order, ptrs}
use yquant_system.PriceLevels.Inv.{
  Queues, AllResting, ref_at, SideInv, SideInv-Untouched, Untouched, Identity, identity_at,
}
use yquant_system.BookCore.{BookCore, ClientOrderIdTable, at_side, set_side}
use yquant_system.BookCore.Inv.{
  BookInv, BookQueues, Resting, side_of_book, set_queues, lookup, Located,
}

abbrev pub set_queue : Bool → ℕ → List Order → BookQueues → BookQueues
set_queue k t os q = set_queues k (update (q k) t os) q

-- A queue of the book after one queue was replaced.
pub queue_at :
    (k k' : Bool) (t t' : ℕ) (os : List Order) (q : BookQueues)
    → ((k' ≡ k) × (t' ≡ t) × (set_queue k t os q k' t' ≡ os)) ⊎ (set_queue k t os q k' t' ≡ q k' t')
queue_at true true t t' os q = elim (Bool-cases (t' == t)) [
  | inl e ↦ inl (refl, ==→eq t' t e, rw e)
  | inr e ↦ inr (rw e)
]
queue_at true false t t' os q = inr refl
queue_at false true t t' os q = inr refl
queue_at false false t t' os q = elim (Bool-cases (t' == t)) [
  | inl e ↦ inl (refl, ==→eq t' t e, rw e)
  | inr e ↦ inr (rw e)
]

pub set_queue_self :
    (k : Bool) (t : ℕ) (os : List Order) (q : BookQueues) → set_queue k t os q k t ≡ os
set_queue_self true t os q = update_self (q true) t os
set_queue_self false t os q = update_self (q false) t os

-- The queues after the queue of one tick has become `os`, which has only resting orders.
pub set_queue-Resting :
    (q : BookQueues) (k : Bool) (t : ℕ) (os : List Order)
    → Resting q
    → AllResting os
    → Resting (set_queue k t os q)
set_queue-Resting q k t os r a k' t' = elim (queue_at k k' t t' os q) [
  | inl (_, _, e) ↦ subst AllResting (sym e) a
  | inr e ↦ subst AllResting (sym e) (r k' t')
]

-- A node stays located when the queue that replaces its own still has it.
pub Located-set :
    (q : BookQueues) (k : Bool) (t : ℕ) (os : List Order) (j : ℕ) (d : Identity)
    → (has j (ptrs (q k t)) ≡ true → has j (ptrs os) ≡ true)
    → Located q j d
    → Located (set_queue k t os q) j d
Located-set q k t os j d keep (k', t', lt, level, h) = elim (queue_at k k' t t' os q) [
  | inl (e, f, g) ↦ (
    k',
    t',
    lt,
    level,
    rw g (
        keep (
          subst (λ n. has j (ptrs (q k n)) ≡ true) f
            (subst (λ n. has j (ptrs (q n t')) ≡ true) e h))),
  )
  | inr g ↦ (k', t', lt, level, rw g h)
]

-- The sides after one of them was replaced.
sides_after :
    (b : BookCore) (p' : Pool) (l' : PriceLevels) (k k' : Bool)
    → ((n : Bool) → (at_side n b).side ≡ side_of_book n)
    → l'.side ≡ (at_side k b).side
    → (at_side k' (set_side k p' l' b)).side ≡ side_of_book k'
sides_after b p' l' true true h e = e ∙ h true
sides_after b p' l' true false h e = h false
sides_after b p' l' false true h e = h true
sides_after b p' l' false false h e = e ∙ h false

invs_after :
    (b : BookCore) (q : BookQueues) (p' : Pool) (l' : PriceLevels) (t : ℕ) (f : Queues)
    (k k' : Bool)
    → ((n : Bool) → (at_side n b).side ≡ side_of_book n)
    → ((n : Bool) → SideInv b.order_pool.slot (at_side n b) (q n))
    → Untouched b.order_pool.slot p'.slot (ref_at (at_side k b).side t)
    → SideInv p'.slot l' f
    → SideInv p'.slot (at_side k' (set_side k p' l' b)) (set_queues k f q k')
invs_after b q p' l' t f true true h inv u v = v
invs_after b q p' l' t f true false h inv u v =
    SideInv-Untouched b.order_pool.slot p'.slot (ref_at b.bids.side t) b.asks (q false)
      (λ e. cc (sym (h false) ∙ e ∙ h true)) u (inv false)
invs_after b q p' l' t f false true h inv u v =
    SideInv-Untouched b.order_pool.slot p'.slot (ref_at b.asks.side t) b.bids (q true)
      (λ e. cc (sym (h true) ∙ e ∙ h false)) u (inv true)
invs_after b q p' l' t f false false h inv u v = v

abbrev pub IsPlaced : BookQueues → ℕ → Identity → Type 0
IsPlaced q j d =
    Located q j d × (d.client_id < max_num_clients) × (d.client_order_id < max_order_ids)

abbrev pub IsIndexed : Pool → ClientOrderIdTable → Type 0
IsIndexed p orders =
    (c oid j : ℕ)
    → lookup orders c oid ≡ some j
    → (d : Identity) × (identity_at (p.slot j) ≡ some d)
      × (d.client_id ≡ c)
      × (d.client_order_id ≡ oid)

-- The invariant after the queue of tick `t` of side `k` has become `os`.
pub step-BookInv :
    (b : BookCore) (q : BookQueues) (k : Bool) (t : ℕ) (os : List Order) (p' : Pool)
    (l' : PriceLevels) (orders' : ClientOrderIdTable)
    → BookInv b q
    → IsValid p'
    → p'.capacity ≡ b.order_pool.capacity
    → l'.side ≡ (at_side k b).side
    → SideInv p'.slot l' (update (q k) t os)
    → Untouched b.order_pool.slot p'.slot (ref_at (at_side k b).side t)
    → ((j : ℕ) (d : Identity)
        → identity_at (p'.slot j) ≡ some d
        → IsPlaced (set_queue k t os q) j d)
    → IsIndexed p' orders'
    → BookInv (set_side k p' l' (record b { orders = orders' })) (set_queue k t os q)
step-BookInv b q k t os p' l' orders' v valid size side inv u placed indexed = record {
  pool = valid;
  capacity = size ∙ v.capacity;
  side = λ k'. sides_after b p' l' k k' v.side side;
  side_inv = λ k'. invs_after b q p' l' t (update (q k) t os) k k' v.side v.side_inv u inv;
  located = λ j d h. (placed j d h).0;
  bounded = λ j d h. ((placed j d h).1, (placed j d h).2);
  indexed = indexed;
}
