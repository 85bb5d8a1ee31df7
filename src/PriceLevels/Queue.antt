-- ===== src/PriceLevels/Queue.antt =====
-- exchange/matcher/price_levels.h: the FIFO of one level as a doubly linked list in the pool.
use yquant_system.Base.{
  ℕ, ◌≡◌, ◌≢◌, true, false, Option, some, List, [], ◌∷◌, ◌++◌, arith, refl, ◌∙◌, has, AllDistinct,
  update, update_self, update_ne, ==_self,
}
use yquant_system.MemPool.{Slot, object}
use yquant_system.PriceLevels.{LevelRef, OrderNode}

-- A resting order, without its links.
pub record Order : Type 0 where
  pub ptr : ℕ
  pub market_order_id : ℕ
  pub client_order_id : ℕ
  pub priority : ℕ
  pub remaining : ℕ
  pub client_id : ℕ

abbrev pub Slots : Type 0
Slots = ℕ → Slot OrderNode

abbrev pub node_of : LevelRef → Option ℕ → Option ℕ → Order → OrderNode
node_of ref prev next o = record {
  next = next;
  prev = prev;
  level = some ref;
  market_order_id = o.market_order_id;
  client_order_id = o.client_order_id;
  priority = o.priority;
  remaining_quantity = o.remaining;
  client_id = o.client_id;
}

abbrev pub ptrs : List Order → List ℕ
ptrs [] = []
ptrs (o ∷ os) = o.ptr ∷ ptrs os

-- The first pointer of a list, or what follows it; the last, or what stands before it.
abbrev pub first_or : Option ℕ → List Order → Option ℕ
first_or next [] = next
first_or next (o ∷ os) = some o.ptr

abbrev pub last_or : Option ℕ → List Order → Option ℕ
last_or prev [] = prev
last_or prev (o ∷ os) = last_or (some o.ptr) os

-- The nodes of `os` stand in the pool, linked in order between `prev` and `next`.
abbrev pub Seg : Slots → LevelRef → Option ℕ → Option ℕ → List Order → Type 0
Seg slot ref prev next [] = Unit {0}
Seg slot ref prev next (o ∷ os) =
    (slot o.ptr ≡ object (node_of ref prev (first_or next os) o))
    × Seg slot ref (some o.ptr) next os

module _ (s : Slots) (ref : LevelRef) where
  pub Seg-append :
      (prev next : Option ℕ) (xs ys : List Order)
      → Seg s ref prev (first_or next ys) xs
      → Seg s ref (last_or prev xs) next ys
      → Seg s ref prev next (xs ++ ys)
  Seg-append prev next [] ys h k = k
  Seg-append prev next (x ∷ []) ys h k = (h.0, k)
  Seg-append prev next (x ∷ z ∷ xs) ys h k = (h.0, Seg-append (some x.ptr) next (z ∷ xs) ys h.1 k)

  pub Seg-split :
      (prev next : Option ℕ) (xs ys : List Order)
      → Seg s ref prev next (xs ++ ys)
      → Seg s ref prev (first_or next ys) xs × Seg s ref (last_or prev xs) next ys
  Seg-split prev next [] ys h = (tt, h)
  Seg-split prev next (x ∷ []) ys h = ((h.0, tt), h.1)
  Seg-split prev next (x ∷ z ∷ xs) ys h =
      let (a, b) = Seg-split (some x.ptr) next (z ∷ xs) ys h.1 in ((h.0, a), b)

  -- A segment depends on the slots of its own nodes.
  pub Seg-frame :
      (s' : Slots) (prev next : Option ℕ) (xs : List Order)
      → ((j : ℕ) → has j (ptrs xs) ≡ true → s' j ≡ s j)
      → Seg s ref prev next xs
      → Seg s' ref prev next xs
  Seg-frame s' prev next [] f h = tt
  Seg-frame s' prev next (x ∷ xs) f h = (
    f x.ptr (rw ==_self refl) ∙ h.0,
    Seg-frame s' (some x.ptr) next xs (λ j m. f j (ground (arith, m))) h.1,
  )

  pub Seg-frame_one :
      (i : ℕ) (c : Slot OrderNode) (prev next : Option ℕ) (xs : List Order)
      → has i (ptrs xs) ≡ false
      → Seg s ref prev next xs
      → Seg (update s i c) ref prev next xs
  Seg-frame_one i c prev next xs n h =
      Seg-frame (update s i c) prev next xs (λ j m. update_ne s i j c (λ e. ne j m e)) h
    where
      ne : (j : ℕ) → has j (ptrs xs) ≡ true → j ≡ i → ⊥
      ne j m e = cc

  -- The node at the head of a segment gets another predecessor.
  pub Seg-set_prev :
      (prev prev' next : Option ℕ) (x : Order) (xs : List Order)
      → has x.ptr (ptrs xs) ≡ false
      → Seg s ref prev next (x ∷ xs)
      → Seg
          (update s x.ptr (object (node_of ref prev' (first_or next xs) x)))
          ref
          prev'
          next
          (x ∷ xs)
  Seg-set_prev prev prev' next x xs n h =
      (update_self s x.ptr _, Seg-frame_one x.ptr _ (some x.ptr) next xs n h.1)

-- The last node of a segment, and the segment after its `next` was written.
pub record LastNode (s : Slots) (ref : LevelRef) (prev next : Option ℕ) (xs : List Order)
    (l : Order) (before : Option ℕ) : Type 0 where
  pub last : last_or prev xs ≡ some l.ptr
  pub mem : has l.ptr (ptrs xs) ≡ true
  pub node : s l.ptr ≡ object (node_of ref before next l)
  pub relinked :
      (next' : Option ℕ)
      → Seg (update s l.ptr (object (node_of ref before next' l))) ref prev next' xs

pub last_node :
    (s : Slots) (ref : LevelRef) (prev next : Option ℕ) (x : Order) (xs : List Order)
    → AllDistinct (ptrs (x ∷ xs))
    → Seg s ref prev next (x ∷ xs)
    → (l : Order) × (before : Option ℕ) × LastNode s ref prev next (x ∷ xs) l before
last_node s ref prev next x [] d h = (
  x,
  prev,
  record {
    last = refl;
    mem = rw ==_self refl;
    node = h.0;
    relinked = λ next'. (update_self s x.ptr _, tt);
  },
)
last_node s ref prev next x (y ∷ ys) d h =
    let (l, before, r) = last_node s ref (some x.ptr) next y ys d.1 h.1 in
    let ne : x.ptr ≢ l.ptr = apart x.ptr l.ptr (ptrs (y ∷ ys)) d.0 r.mem in
    (
      l,
      before,
      record {
        last = r.last;
        mem = ground (arith, r.mem);
        node = r.node;
        relinked = λ next'. (update_ne s l.ptr x.ptr _ ne ∙ h.0, r.relinked next');
      },
    )
  where
    apart : (a b : ℕ) (bs : List ℕ) → has a bs ≡ false → has b bs ≡ true → a ≢ b
    apart a b bs f t e = cc
