-- ===== src/PriceLevels/Add.antt =====
-- exchange/matcher/price_levels.cc: AddOrder appends the order to the queue of its tick.
use yquant_system.Base.{
  ℕ, ◌+◌, ◌<◌, ◌≡◌, ◌≢◌, true, false, none, some, List, [], ◌∷◌, arith, refl, sym, ◌∙◌, ap, ap, has,
  AllDistinct, update, update_self, update_ne, subst,
}
use yquant_system.Base.Int.{ℤ, pos}
use yquant_system.Types.{add64}
use yquant_system.MemPool.{object, object_at, allocate}
use yquant_system.MemPool.Inv.{IsValid}
use yquant_system.MemPool.Ops.{Allocated, allocate-Allocated}
use yquant_system.MemPool.Free.{modify-eq, modify-IsValid}
use yquant_system.Bitmap.{tick_count}
use yquant_system.PriceLevels.{
  LevelRef, OrderNode, FifoLevel, PriceLevels, Pool, new_node, append_to, occupy, set_next,
  add_order, level_is_empty, in_grid,
}
use yquant_system.PriceLevels.Queue.{
  Order, node_of, ptrs, last_or, Seg, Seg-frame, LastNode, last_node,
}
use yquant_system.PriceLevels.Orders.{fresh-not-mem}
use yquant_system.PriceLevels.Inv.{
  Queues, ref_at, SideInv, Untouched, identity_at, order_identity, append_at,
}
use yquant_system.PriceLevels.Append.{
  Appended, append_first, append_after, SideInv-occupied, SideInv-appended,
}

-- What AddOrder leaves: order `o` at the tail of the queue of tick `t`, and no other node changed
-- but for the links of its level.
pub record Added (p : Pool) (l : PriceLevels) (q : Queues) (t : ℕ) (o : Order) (p' : Pool)
    (l' : PriceLevels) : Type 0 where
  pub fresh : object_at (p.slot o.ptr) ≡ none
  pub valid : IsValid p'
  pub used : p'.in_use ≡ p.in_use + 1
  pub same_capacity : p'.capacity ≡ p.capacity
  pub same_side : l'.side ≡ l.side
  pub side_inv : SideInv p'.slot l' (append_at q t o)
  pub untouched : Untouched p.slot p'.slot (ref_at l.side t)
  pub others : (j : ℕ) → j ≢ o.ptr → identity_at (p'.slot j) ≡ identity_at (p.slot j)
  pub sequencer : (l'.levels t).next_priority ≡ add64 (l.levels t).next_priority 1
  pub other_levels : (u : ℕ) → u ≢ t → l'.levels u ≡ l.levels u
  pub entered : identity_at (p'.slot o.ptr) ≡ some (order_identity (ref_at l.side t) o)

-- The order that a call of AddOrder makes, in slot i.
abbrev pub new_order :
    PriceLevels → ℕ → (client_id client_order_id market_order_id quantity i : ℕ) → Order
new_order l t client_id client_order_id market_order_id quantity i = record {
  ptr = i;
  market_order_id = market_order_id;
  client_order_id = client_order_id;
  priority = (l.levels t).next_priority;
  remaining = quantity;
  client_id = client_id;
}

module _ (p : Pool) (l : PriceLevels) (t c oid mid qty : ℕ) (inside : t < tick_count) where
  grid : in_grid (pos t) ≡ true
  grid = ground arith

  abbrev l1 : ℕ → PriceLevels
  l1 i = record l { levels = update l.levels t (append_to (l.levels t) i qty) }

  run_first :
      (i : ℕ) (p1 : Pool)
      → allocate (new_node l t c oid mid qty) p ≡ some (i, p1)
      → level_is_empty (l.levels t) ≡ true
      → add_order p l (pos t) c oid mid qty ≡ some (i, p1, occupy (l1 i) t)
  unfolding add_order
  run_first i p1 e h = rw (grid, e, h)

  run_after :
      (i : ℕ) (p1 : Pool) (last : ℕ) (n : OrderNode)
      → allocate (new_node l t c oid mid qty) p ≡ some (i, p1)
      → level_is_empty (l.levels t) ≡ false
      → (l.levels t).last_order ≡ some last
      → p1.slot last ≡ object n
      → add_order p l (pos t) c oid mid qty
        ≡ some (
          i,
          record p1 { slot = update p1.slot last (object (record n { next = some i })) },
          l1 i,
        )
  unfolding add_order set_next
  run_after i p1 last n e h f g =
      rw (grid, e, h) (simp f (rw (modify-eq (λ k. record k { next = some i }) p1 last n g)))

-- The pool after the node of the new order was written.
module _ (p : Pool) (l : PriceLevels) (q : Queues) (t c oid mid qty : ℕ) (inside : t < tick_count)
    (inv : SideInv p.slot l q) (i : ℕ) (p1 : Pool)
    (e : allocate (new_node l t c oid mid qty) p ≡ some (i, p1))
    (al : Allocated (new_node l t c oid mid qty) p i p1) where
  abbrev o : Order
  o = new_order l t c oid mid qty i

  abbrev ref : LevelRef
  ref = ref_at l.side t

  written : p1.slot i ≡ object (node_of ref (l.levels t).last_order none o)
  unfolding new_node
  written = ap (λ f. f i) al.written ∙ update_self p.slot i _

  others_kept : (j : ℕ) → j ≢ i → p1.slot j ≡ p.slot j
  others_kept j ne = ap (λ f. f j) al.written ∙ update_ne p.slot i j _ ne

  absent : has i (ptrs (q t)) ≡ false
  absent = fresh-not-mem p.slot ref i none none (q t) al.fresh (inv.level_inv t).seg

  abbrev Outcome : Type 0
  Outcome =
      (p' : Pool) × (l' : PriceLevels) × (add_order p l (pos t) c oid mid qty ≡ some (i, p', l'))
      × Added p l q t o p' l'

  outcome_first : q t ≡ [] → Outcome
  unfolding occupy append_to
  outcome_first eq =
      let v = inv.level_inv t in
      let empty : level_is_empty (l.levels t) ≡ true = rw (v.first, eq) refl in
      let a : Appended p.slot p1.slot ref (q t) o =
        subst (λ os. Appended p.slot p1.slot ref os o) (sym eq)
          (append_first p.slot p1.slot ref o (l.levels t).last_order al.fresh written others_kept
            (v.last ∙ ap (last_or none) eq)) in
      (
        p1,
        occupy (l1 p l t c oid mid qty inside i) t,
        run_first p l t c oid mid qty inside i p1 e empty,
        record {
          fresh = al.fresh;
          valid = al.valid;
          used = al.used;
          same_capacity = al.same_capacity;
          same_side = refl;
          side_inv = SideInv-occupied p.slot p1.slot l q t o inv inside a absent;
          untouched = a.untouched;
          others = a.others;
          sequencer = ap (λ (k : FifoLevel). k.next_priority) (update_self l.levels t _);
          other_levels = λ u ne. update_ne l.levels t u _ ne;
          entered = a.entered;
        },
      )

  outcome_after : (x : Order) (xs : List Order) → q t ≡ x ∷ xs → Outcome
  unfolding append_to
  outcome_after x xs eq =
      let v = inv.level_inv t in
      let seg1 : Seg p1.slot ref none none (q t) =
        Seg-frame p.slot ref p1.slot none none (q t)
          (λ j m. others_kept j (λ d. cc (sym m ∙ ap (λ k. has k (ptrs (q t))) d ∙ absent)))
          v.seg in
      let (k, before, r) =
        last_node p1.slot ref none none x xs (subst (λ os. AllDistinct (ptrs os)) eq v.distinct)
          (subst (Seg p1.slot ref none none) eq seg1) in
      let r' : LastNode p1.slot ref none none (q t) k before =
        subst (λ os. LastNode p1.slot ref none none os k before) (sym eq) r in
      let full : level_is_empty (l.levels t) ≡ false = rw (v.first, eq) refl in
      let a =
        append_after p.slot p1.slot ref o (l.levels t).last_order al.fresh written others_kept (q t)
          k before v.last absent r' in
      (
        record p1 { slot = update p1.slot k.ptr (object (node_of ref before (some i) k)) },
        l1 p l t c oid mid qty inside i,
        run_after p l t c oid mid qty inside i p1 k.ptr (node_of ref before none k) e full
            (v.last ∙ r'.last) r'.node,
        record {
          fresh = al.fresh;
          valid = modify-IsValid p1 k.ptr (node_of ref before none k) _ al.valid r'.node;
          used = al.used;
          same_capacity = al.same_capacity;
          same_side = refl;
          side_inv = SideInv-appended p.slot _ l q t o inv inside a absent (rw eq refl);
          untouched = a.untouched;
          others = a.others;
          sequencer = ap (λ (k : FifoLevel). k.next_priority) (update_self l.levels t _);
          other_levels = λ u ne. update_ne l.levels t u _ ne;
          entered = a.entered;
        },
      )

  outcome : (os : List Order) → q t ≡ os → Outcome
  outcome [] eq = outcome_first eq
  outcome (x ∷ xs) eq = outcome_after x xs eq

-- On a valid side whose pool has room, AddOrder at a tick of the grid returns the slot of a new
-- order and appends that order, with the level's next priority, to the queue of its tick; the next
-- priority of that level is counted on by one as a 64-bit word and no other level changed; the
-- invariant of the side and of the pool holds again, and no other node changed but for links
-- within the level.
pub add_order-Added :
    (p : Pool) (l : PriceLevels) (q : Queues) (t c oid mid qty : ℕ)
    → IsValid p
    → p.in_use < p.capacity
    → SideInv p.slot l q
    → t < tick_count
    → (i : ℕ) × (p' : Pool) × (l' : PriceLevels) × (add_order p l (pos t) c oid mid qty
        ≡ some (i, p', l'))
      × Added p l q t (new_order l t c oid mid qty i) p' l'
add_order-Added p l q t c oid mid qty v room inv inside =
    let (i, p1, e, al) = allocate-Allocated (new_node l t c oid mid qty) p v room in
    let (p', l', f, a) = outcome p l q t c oid mid qty inside inv i p1 e al (q t) refl in
    (i, p', l', f, a)

-- A tick outside the grid ends the process.
pub add_order_off_grid :
    (p : Pool) (l : PriceLevels) (tick : ℤ) (c oid mid qty : ℕ)
    → in_grid tick ≡ false
    → add_order p l tick c oid mid qty ≡ none
unfolding add_order
add_order_off_grid p l tick c oid mid qty h = rw h
