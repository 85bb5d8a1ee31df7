-- ===== src/PriceLevels/Remove.antt =====
-- exchange/matcher/price_levels.cc: RemoveOrder takes one resting order out of the side.
use yquant_system.Base.{
  ℕ, ◌+◌, ◌<◌, ◌≡◌, ◌≢◌, true, none, some, List, ◌∷◌, ◌++◌, sym, ◌∙◌, ap, nonempty, if◌then◌else◌,
  update, update_self, update_ne, subst,
}
use yquant_system.Types.{u32_mod}
use yquant_system.MemPool.{object, object_at}
use yquant_system.MemPool.Inv.{IsValid}
use yquant_system.MemPool.Free.{
  load-eq, modify-eq, modify-IsValid, Deallocated, deallocate-Deallocated,
}
use yquant_system.Bitmap.{tick_count}
use yquant_system.PriceLevels.{LevelRef, OrderNode, FifoLevel, PriceLevels, Pool, remove_order}
use yquant_system.PriceLevels.Queue.{Order, node_of, first_or, last_or}
use yquant_system.PriceLevels.Orders.{nonempty_middle}
use yquant_system.PriceLevels.Inv.{
  Queues, ref_at, LevelInv, SideInv, has_orders, Untouched, identity_at,
}
use yquant_system.PriceLevels.Fill.{level_of-node}
use yquant_system.PriceLevels.Bridge.{less, Bridged, at, unlinks, freed-Seg, less-LevelInv}
use yquant_system.PriceLevels.Vacate.{
  settle, settle-SideInv, side-settle, settle-sequencer, settle-others,
}

-- What RemoveOrder leaves: the queue of the tick without the order, whose slot is free.
pub record Removed (p : Pool) (l : PriceLevels) (q : Queues) (t : ℕ) (xs : List Order) (o : Order)
    (ys : List Order) (p' : Pool) (l' : PriceLevels) : Type 0 where
  pub gone : object_at (p'.slot o.ptr) ≡ none
  pub valid : IsValid p'
  pub used : p'.in_use + 1 ≡ p.in_use
  pub same_capacity : p'.capacity ≡ p.capacity
  pub same_side : l'.side ≡ l.side
  pub side_inv : SideInv p'.slot l' (update q t (xs ++ ys))
  pub sequencer :
      (l'.levels t).next_priority ≡ (if nonempty (xs ++ ys) then (l.levels t).next_priority else 1)
  pub other_levels : (u : ℕ) → u ≢ t → l'.levels u ≡ l.levels u
  pub untouched : Untouched p.slot p'.slot (ref_at l.side t)
  pub others : (j : ℕ) → j ≢ o.ptr → identity_at (p'.slot j) ≡ identity_at (p.slot j)

module _ (p : Pool) (l : PriceLevels) (q : Queues) (t : ℕ) (xs ys : List Order) (o : Order)
    (v : IsValid p) (inv : SideInv p.slot l q) (inside : t < tick_count)
    (lv : LevelInv p.slot (ref_at l.side t) (l.levels t) (xs ++ o ∷ ys)) where
  abbrev ref : LevelRef
  ref = ref_at l.side t

  abbrev n : OrderNode
  n = node_of ref (last_or none xs) (first_or none ys) o

  abbrev cut : OrderNode → OrderNode
  cut k = record k { next = none; prev = none; level = none }

  abbrev unlinked : Pool → Pool
  unlinked p2 = record p2 { slot = update p2.slot o.ptr (object (cut n)) }

  remove_runs :
      (p2 : Pool) × (level2 : FifoLevel) × (p4 : Pool) × (remove_order p l o.ptr
        ≡ some (p4, settle l t (less level2 o)))
      × Bridged p ref (l.levels t) xs o ys p2 level2
      × Deallocated (unlinked p2) o.ptr p4
  unfolding remove_order
  remove_runs =
      let held = at p ref (l.levels t) xs o ys v lv in
      let (p1, level1, p2, level2, e1, f1, e2, f2, b) = unlinks p ref (l.levels t) xs o ys v lv in
      let held2 : p2.slot o.ptr ≡ object n = b.at_node ∙ held in
      let (p4, e4, d) =
        deallocate-Deallocated (unlinked p2) o.ptr (cut n)
          (modify-IsValid p2 o.ptr n (cut n) b.valid held2) (update_self p2.slot o.ptr _) in
      (
        p2,
        level2,
        p4,
        rw (
          load-eq p o.ptr n held,
          level_of-node l t _ _ o inside,
          e1,
          f1,
          e2,
          f2,
          modify-eq cut p2 o.ptr n held2,
          e4,
        ),
        b,
        d,
      )

  removed :
      (p2 : Pool) (level2 : FifoLevel) (p4 : Pool)
      → Bridged p ref (l.levels t) xs o ys p2 level2
      → Deallocated (unlinked p2) o.ptr p4
      → has_orders q t ≡ true
      → o.remaining < u32_mod
      → Removed p l q t xs o ys p4 (settle l t (less level2 o))
  removed p2 level2 p4 b d full word =
      let same : (j : ℕ) → j ≢ o.ptr → p4.slot j ≡ p2.slot j =
        λ j ne. d.others j ne ∙ update_ne p2.slot o.ptr j _ ne in
      let seg = freed-Seg p ref (l.levels t) xs o ys v lv p2 level2 p4.slot b same in
      let held = at p ref (l.levels t) xs o ys v lv in
      let untouched : Untouched p.slot p4.slot ref =
        λ j m h ne. same j (apart j m h held ne) ∙ b.untouched j m h ne in
      record {
        gone = d.gone;
        valid = d.valid;
        used = d.used ∙ b.used;
        same_capacity = d.same_capacity ∙ b.same_capacity;
        same_side = side-settle l t (less level2 o);
        side_inv =
            settle-SideInv p.slot p4.slot l q t (less level2 o) (xs ++ ys) inv inside full untouched
              b.first b.last
              (λ some_left.
                less-LevelInv p ref (l.levels t) xs o ys v lv p2 level2 p4.slot b seg some_left
                  word);
        sequencer =
            settle-sequencer l t (less level2 o) (xs ++ ys) b.first
            ∙ ap (λ k. if nonempty (xs ++ ys) then k else 1) b.sequence;
        other_levels = settle-others l t (less level2 o);
        untouched = untouched;
        others = λ j ne. ap identity_at (same j ne) ∙ b.others j;
      }
    where
      level_eq : (m k : OrderNode) → object m ≡ object k → m.level ≡ k.level
      level_eq m k g = cc

      apart :
          (j : ℕ) (m : OrderNode)
          → p.slot j ≡ object m
          → p.slot o.ptr ≡ object n
          → m.level ≢ some ref
          → j ≢ o.ptr
      apart j m h k ne f = ne (level_eq m n (sym h ∙ ap p.slot f ∙ k))

-- On a valid side, RemoveOrder of a resting order returns; the order leaves the queue of its tick,
-- its slot is free, the invariant holds again (bitmap, cached best tick and totals included), the
-- next priority of the level stays while it has orders and is 1 when it has none, no other level
-- changed, no node of another level changed, and the nodes that stay in the pool keep their ids
-- and their level.
pub remove_order-Removed :
    (p : Pool) (l : PriceLevels) (q : Queues) (t : ℕ) (xs ys : List Order) (o : Order)
    → IsValid p
    → SideInv p.slot l q
    → t < tick_count
    → q t ≡ xs ++ o ∷ ys
    → o.remaining < u32_mod
    → (p' : Pool) × (l' : PriceLevels) × (remove_order p l o.ptr ≡ some (p', l'))
      × Removed p l q t xs o ys p' l'
remove_order-Removed p l q t xs ys o v inv inside eq word =
    let lv : LevelInv p.slot (ref_at l.side t) (l.levels t) (xs ++ o ∷ ys) =
      subst (LevelInv p.slot (ref_at l.side t) (l.levels t)) eq (inv.level_inv t) in
    let (p2, level2, p4, e, b, d) = remove_runs p l q t xs ys o v inv inside lv in
    let full : has_orders q t ≡ true = ap nonempty eq ∙ nonempty_middle xs ys o in
    (
      p4,
      settle l t (less level2 o),
      e,
      removed p l q t xs ys o v inv inside lv p2 level2 p4 b d full word,
    )
