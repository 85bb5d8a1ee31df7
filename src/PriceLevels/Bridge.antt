-- ===== src/PriceLevels/Bridge.antt =====
-- exchange/matcher/price_levels.cc: the middle of RemoveOrder, where an order leaves the links of its
-- level.
use yquant_system.Base.{
  ℕ, ◌<◌, ◌≡◌, ◌≢◌, true, false, none, some, List, ◌∷◌, ◌++◌, arith, refl, sym, ◌∙◌, ap, has,
  AllDistinct, nonempty, Bool-cases, inl, inr,
}
use yquant_system.Types.{u32_mod, sub64}
use yquant_system.MemPool.{object, load}
use yquant_system.MemPool.Inv.{IsValid}
use yquant_system.MemPool.Free.{load-eq}
use yquant_system.PriceLevels.{LevelRef, OrderNode, FifoLevel, Pool, unlink_prev, unlink_next}
use yquant_system.PriceLevels.Queue.{
  Order, Slots, node_of, ptrs, first_or, last_or, Seg, Seg-append, Seg-split, Seg-frame,
}
use yquant_system.PriceLevels.Orders.{
  first_or-append, last_or-append, sum_remaining_middle, distinct_middle, distinct_apart,
  AllDistinct-left, AllDistinct-right,
}
use yquant_system.PriceLevels.Inv.{LevelInv, Untouched, Untouched-trans, identity_at}
use yquant_system.PriceLevels.Fill.{node_at}
use yquant_system.PriceLevels.Unlink.{
  UnlinkedPrev, UnlinkedNext, unlink_prev-UnlinkedPrev, unlink_next-UnlinkedNext,
}

-- The level in the middle of RemoveOrder, once the order is out of its links.
abbrev pub less : FifoLevel → Order → FifoLevel
less level o = record level { total_quantity = sub64 level.total_quantity o.remaining }

-- The links around the removed order.
pub record Bridged (p : Pool) (ref : LevelRef) (level : FifoLevel) (xs : List Order) (o : Order)
    (ys : List Order) (p2 : Pool) (level2 : FifoLevel) : Type 0 where
  pub valid : IsValid p2
  pub used : p2.in_use ≡ p.in_use
  pub same_capacity : p2.capacity ≡ p.capacity
  pub front : Seg p2.slot ref none (first_or none ys) xs
  pub back : Seg p2.slot ref (last_or none xs) none ys
  pub at_node : p2.slot o.ptr ≡ p.slot o.ptr
  pub first : level2.first_order ≡ first_or none (xs ++ ys)
  pub last : level2.last_order ≡ last_or none (xs ++ ys)
  pub total : level2.total_quantity ≡ level.total_quantity
  pub sequence : level2.next_priority ≡ level.next_priority
  pub untouched : Untouched p.slot p2.slot ref
  pub others : (j : ℕ) → identity_at (p2.slot j) ≡ identity_at (p.slot j)

module _ (p : Pool) (ref : LevelRef) (level : FifoLevel) (xs : List Order) (o : Order)
    (ys : List Order) (v : IsValid p) (inv : LevelInv p.slot ref level (xs ++ o ∷ ys)) where
  abbrev node : OrderNode
  node = node_of ref (last_or none xs) (first_or none ys) o

  pub at : p.slot o.ptr ≡ object node
  at = node_at p.slot ref xs ys o inv.seg

  bridge :
      (p1 p2 : Pool) (level1 level2 : FifoLevel)
      → UnlinkedPrev p ref level xs (first_or none ys) p1 level1
      → UnlinkedNext p1 ref level1 ys (last_or none xs) p2 level2
      → Bridged p ref level xs o ys p2 level2
  bridge p1 p2 level1 level2 a b =
      let (nx, ny, d) = distinct_middle xs ys o inv.distinct in
      record {
        valid = b.relinked.valid;
        used = b.relinked.used ∙ a.relinked.used;
        same_capacity = b.relinked.same_capacity ∙ a.relinked.same_capacity;
        front =
            Seg-frame p1.slot ref p2.slot none (first_or none ys) xs
              (λ j m. b.relinked.elsewhere j (distinct_apart j xs ys d m)) a.seg;
        back = b.seg;
        at_node = b.relinked.elsewhere o.ptr ny ∙ a.relinked.elsewhere o.ptr nx;
        first = b.first ∙ a.first ∙ sym (first_or-append none xs ys);
        last = b.last ∙ sym (last_or-append none xs ys);
        total = b.total ∙ a.total;
        sequence = b.sequence ∙ a.sequence;
        untouched =
            Untouched-trans p.slot p1.slot p2.slot ref a.relinked.untouched b.relinked.untouched;
        others = λ j. b.relinked.others j ∙ a.relinked.others j;
      }

  -- Both unlinking steps run, on the node as it was.
  pub unlinks :
      (p1 : Pool) × (level1 : FifoLevel) × (p2 : Pool) × (level2 : FifoLevel) × (unlink_prev p level
          node
        ≡ some (p1, level1))
      × (load o.ptr p1 ≡ some node)
      × (unlink_next p1 level1 node ≡ some (p2, level2))
      × (load o.ptr p2 ≡ some node)
      × Bridged p ref level xs o ys p2 level2
  unlinks =
      let (nx, ny, d) = distinct_middle xs ys o inv.distinct in
      let (front, back) = Seg-split p.slot ref none none xs (o ∷ ys) inv.seg in
      let (p1, level1, e1, a) =
        unlink_prev-UnlinkedPrev p ref level xs node o.ptr v front
          (AllDistinct-left xs (o ∷ ys) inv.distinct) refl
          (inv.first ∙ first_or-append none xs (o ∷ ys)) in
      let keep : (j : ℕ) → has j (ptrs ys) ≡ true → p1.slot j ≡ p.slot j =
        λ j m. a.relinked.elsewhere j (behind j d m) in
      let (p2, level2, e2, b) =
        unlink_next-UnlinkedNext p1 ref level1 ys node o.ptr a.relinked.valid
          (Seg-frame p.slot ref p1.slot (some o.ptr) none ys keep back.1)
          (AllDistinct-right xs ys d) refl (a.last ∙ inv.last ∙ last_or-append none xs (o ∷ ys)) in
      let c = bridge p1 p2 level1 level2 a b in
      (
        p1,
        level1,
        p2,
        level2,
        e1,
        load-eq p1 o.ptr node (a.relinked.elsewhere o.ptr nx ∙ at),
        e2,
        load-eq p2 o.ptr node (c.at_node ∙ at),
        c,
      )
    where
      behind :
          (j : ℕ) → AllDistinct (ptrs (xs ++ ys)) → has j (ptrs ys) ≡ true → has j (ptrs xs) ≡ false
      behind j d m = elim (Bool-cases (has j (ptrs xs))) [
        | inl t ↦ cc (sym (distinct_apart j xs ys d t) ∙ m)
        | inr f ↦ f
      ]

  -- The slots once the node has been given back.
  pub freed-Seg :
      (p2 : Pool) (level2 : FifoLevel) (s4 : Slots)
      → Bridged p ref level xs o ys p2 level2
      → ((j : ℕ) → j ≢ o.ptr → s4 j ≡ p2.slot j)
      → Seg s4 ref none none (xs ++ ys)
  freed-Seg p2 level2 s4 b same =
      let (nx, ny, d) = distinct_middle xs ys o inv.distinct in
      Seg-append s4 ref none none xs ys
        (Seg-frame p2.slot ref s4 none (first_or none ys) xs
          (λ j m. same j (λ e. cc (sym m ∙ ap (λ k. has k (ptrs xs)) e ∙ nx))) b.front)
        (Seg-frame p2.slot ref s4 (last_or none xs) none ys
          (λ j m. same j (λ e. cc (sym m ∙ ap (λ k. has k (ptrs ys)) e ∙ ny))) b.back)

  -- The level once the order's quantity has left its total.
  pub less-LevelInv :
      (p2 : Pool) (level2 : FifoLevel) (s4 : Slots)
      → Bridged p ref level xs o ys p2 level2
      → Seg s4 ref none none (xs ++ ys)
      → nonempty (xs ++ ys) ≡ true
      → o.remaining < u32_mod
      → LevelInv s4 ref (less level2 o) (xs ++ ys)
  less-LevelInv p2 level2 s4 b g full word = record {
    seg = g;
    distinct = (distinct_middle xs ys o inv.distinct).2;
    first = b.first;
    last = b.last;
    total = omega (arith, b.total, inv.total, sum_remaining_middle xs ys o);
    reset = λ e. cc (sym full ∙ e);
  }
