-- ===== src/PriceLevels/Unlink.antt =====
-- exchange/matcher/price_levels.cc: RemoveOrder takes the node out of the links of its level.
use yquant_system.Base.{
  ℕ, ◌≡◌, true, false, Option, none, some, List, [], ◌∷◌, refl, sym, ◌∙◌, ap, has, AllDistinct,
  update, update_ne, ==_self,
}
use yquant_system.MemPool.{object}
use yquant_system.MemPool.Inv.{IsValid}
use yquant_system.MemPool.Free.{modify-eq, modify-IsValid}
use yquant_system.PriceLevels.{
  LevelRef, OrderNode, FifoLevel, Pool, set_next, set_prev, unlink_prev, unlink_next,
}
use yquant_system.PriceLevels.Queue.{
  Order, node_of, ptrs, first_or, last_or, Seg, Seg-set_prev, last_node,
}
use yquant_system.PriceLevels.Inv.{Untouched, identity_at, identity-write, Untouched-write}

-- A change of the links of some orders of one level, and of the ends of that level.
pub record Relinked (p : Pool) (ref : LevelRef) (xs : List Order) (p' : Pool) : Type 0 where
  pub valid : IsValid p'
  pub used : p'.in_use ≡ p.in_use
  pub same_capacity : p'.capacity ≡ p.capacity
  pub elsewhere : (j : ℕ) → has j (ptrs xs) ≡ false → p'.slot j ≡ p.slot j
  pub untouched : Untouched p.slot p'.slot ref
  pub others : (j : ℕ) → identity_at (p'.slot j) ≡ identity_at (p.slot j)

unchanged : (p : Pool) (ref : LevelRef) (xs : List Order) → IsValid p → Relinked p ref xs p
unchanged p ref xs v = record {
  valid = v;
  used = refl;
  same_capacity = refl;
  elsewhere = λ j h. refl;
  untouched = λ j n h ne. refl;
  others = λ j. refl;
}

rewritten :
    (p : Pool) (ref : LevelRef) (xs : List Order) (i : ℕ) (n n' : OrderNode)
    → IsValid p
    → p.slot i ≡ object n
    → n.level ≡ some ref
    → has i (ptrs xs) ≡ true
    → (identity_at (object n') ≡ identity_at (object n))
    → Relinked p ref xs (record p { slot = update p.slot i (object n') })
rewritten p ref xs i n n' v at lv mem same = record {
  valid = modify-IsValid p i n n' v at;
  used = refl;
  same_capacity = refl;
  elsewhere = λ j h.
      update_ne p.slot i j (object n') (λ e. cc (sym mem ∙ ap (λ k. has k (ptrs xs)) (sym e) ∙ h));
  untouched = Untouched-write p.slot i n (object n') ref at lv;
  others = identity-write p.slot i n n' at (unwrap same);
}
  where
    unwrap : {A : Type 0} {a b : A} → some a ≡ some b → a ≡ b
    unwrap e = cc

-- The orders before the removed one end in `next`, and the head of the level is theirs, or `next`.
pub record UnlinkedPrev (p : Pool) (ref : LevelRef) (level : FifoLevel) (xs : List Order)
    (next : Option ℕ) (p' : Pool) (level' : FifoLevel) : Type 0 where
  pub relinked : Relinked p ref xs p'
  pub seg : Seg p'.slot ref none next xs
  pub first : level'.first_order ≡ first_or next xs
  pub last : level'.last_order ≡ level.last_order
  pub total : level'.total_quantity ≡ level.total_quantity
  pub sequence : level'.next_priority ≡ level.next_priority

pub unlink_prev-UnlinkedPrev :
    (p : Pool) (ref : LevelRef) (level : FifoLevel) (xs : List Order) (n : OrderNode) (i : ℕ)
    → IsValid p
    → Seg p.slot ref none (some i) xs
    → AllDistinct (ptrs xs)
    → n.prev ≡ last_or none xs
    → level.first_order ≡ first_or (some i) xs
    → (p' : Pool) × (level' : FifoLevel) × (unlink_prev p level n ≡ some (p', level'))
      × UnlinkedPrev p ref level xs n.next p' level'
unfolding unlink_prev set_next
unlink_prev-UnlinkedPrev p ref level [] n i v g d e f = (
  p,
  record level { first_order = n.next },
  rw e,
  record {
    relinked = unchanged p ref [] v;
    seg = tt;
    first = refl;
    last = refl;
    total = refl;
    sequence = refl;
  },
)
unlink_prev-UnlinkedPrev p ref level (x ∷ xs) n i v g d e f =
    let (a, before, r) = last_node p.slot ref none (some i) x xs d g in
    (
      record p { slot = update p.slot a.ptr (object (node_of ref before n.next a)) },
      level,
      simp (e ∙ r.last) (
          rw (
            modify-eq (λ k. record k { next = n.next }) p a.ptr (node_of ref before (some i) a)
              r.node)),
      record {
        relinked =
            rewritten p ref (x ∷ xs) a.ptr (node_of ref before (some i) a) _ v r.node refl r.mem
              refl;
        seg = r.relinked n.next;
        first = f;
        last = refl;
        total = refl;
        sequence = refl;
      },
    )

-- The orders behind the removed one begin behind `prev`, and the tail of the level is theirs, or
-- `prev`.
pub record UnlinkedNext (p : Pool) (ref : LevelRef) (level : FifoLevel) (ys : List Order)
    (prev : Option ℕ) (p' : Pool) (level' : FifoLevel) : Type 0 where
  pub relinked : Relinked p ref ys p'
  pub seg : Seg p'.slot ref prev none ys
  pub first : level'.first_order ≡ level.first_order
  pub last : level'.last_order ≡ last_or prev ys
  pub total : level'.total_quantity ≡ level.total_quantity
  pub sequence : level'.next_priority ≡ level.next_priority

pub unlink_next-UnlinkedNext :
    (p : Pool) (ref : LevelRef) (level : FifoLevel) (ys : List Order) (n : OrderNode) (i : ℕ)
    → IsValid p
    → Seg p.slot ref (some i) none ys
    → AllDistinct (ptrs ys)
    → n.next ≡ first_or none ys
    → level.last_order ≡ last_or (some i) ys
    → (p' : Pool) × (level' : FifoLevel) × (unlink_next p level n ≡ some (p', level'))
      × UnlinkedNext p ref level ys n.prev p' level'
unfolding unlink_next set_prev
unlink_next-UnlinkedNext p ref level [] n i v g d e f = (
  p,
  record level { last_order = n.prev },
  rw e,
  record {
    relinked = unchanged p ref [] v;
    seg = tt;
    first = refl;
    last = refl;
    total = refl;
    sequence = refl;
  },
)
unlink_next-UnlinkedNext p ref level (y ∷ ys) n i v g d e f = (
  record p { slot = update p.slot y.ptr (object (node_of ref n.prev (first_or none ys) y)) },
  level,
  simp e (
      rw (
        modify-eq (λ k. record k { prev = n.prev }) p y.ptr
          (node_of ref (some i) (first_or none ys) y) g.0)),
  record {
    relinked =
        rewritten p ref (y ∷ ys) y.ptr (node_of ref (some i) (first_or none ys) y) _ v g.0 refl
          (rw ==_self refl) refl;
    seg = Seg-set_prev p.slot ref (some i) n.prev none y ys d.0 g;
    first = refl;
    last = f;
    total = refl;
    sequence = refl;
  },
)
