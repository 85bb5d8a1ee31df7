-- ===== src/PriceLevels/Fill.antt =====
-- exchange/matcher/price_levels.cc: ApplyFill takes a quantity from one resting order.
use yquant_system.Base.{
  ℕ, ◌-◌, ◌≤◌, ◌<◌, ◌≡◌, ◌≢◌, true, Option, none, some, List, [], ◌∷◌, ◌++◌, arith, refl, sym, ◌∙◌,
  ap, AllDistinct, nonempty, update, update_self, update_ne, subst, ◌==◌, Bool-cases, inl, inr,
  le→leb, lt→ltb, ==→eq, ne→==,
}
use yquant_system.Types.{Side, buy, sell, no_side, u32_mod, sub64, sub32}
use yquant_system.MemPool.{object}
use yquant_system.MemPool.Inv.{IsValid}
use yquant_system.MemPool.Free.{load-eq, modify-eq, modify-IsValid}
use yquant_system.Bitmap.{tick_count}
use yquant_system.PriceLevels.{
  LevelRef, OrderNode, FifoLevel, PriceLevels, Pool, same_side, owns, level_of, apply_fill,
}
use yquant_system.PriceLevels.Queue.{
  Order, Slots, node_of, ptrs, first_or, last_or, Seg, Seg-append, Seg-split, Seg-frame_one,
}
use yquant_system.PriceLevels.Orders.{
  ptrs-replace, first_or-replace, last_or-replace, sum_remaining_middle, nonempty_middle,
  distinct_middle,
}
use yquant_system.PriceLevels.Inv.{
  Queues, ref_at, LevelInv, SideInv, has_orders, Untouched, LevelInv-Untouched, identity_at,
  identity-write, Untouched-write, update_both,
}
use yquant_system.PriceLevels.Best.{IsBest-ext}

pub same_side_self : (side : Side) → same_side side side ≡ true
same_side_self buy = refl
same_side_self sell = refl
same_side_self no_side = refl

-- A node of this side is found in this side's array.
pub level_of-node :
    (l : PriceLevels) (t : ℕ) (prev next : Option ℕ) (o : Order)
    → t < tick_count
    → level_of l (node_of (ref_at l.side t) prev next o) ≡ some t
unfolding level_of owns
level_of-node l t prev next o h = rw (same_side_self l.side, lt→ltb t tick_count h)

pub node_at :
    (s : Slots) (ref : LevelRef) (xs ys : List Order) (o : Order)
    → Seg s ref none none (xs ++ o ∷ ys)
    → s o.ptr ≡ object (node_of ref (last_or none xs) (first_or none ys) o)
node_at s ref xs ys o g = (Seg-split s ref none none xs (o ∷ ys) g).1.0

-- The order after a fill.
abbrev pub filled : Order → ℕ → Order
filled o quantity = record o { remaining = o.remaining - quantity }

-- The queues after a fill of order `o`, which stands between `xs` and `ys`.
abbrev pub fill_at : Queues → ℕ → List Order → Order → ℕ → List Order → Queues
fill_at q t xs o quantity ys = update q t (xs ++ filled o quantity ∷ ys)

-- What ApplyFill leaves.
pub record Filled (p : Pool) (l : PriceLevels) (q : Queues) (t : ℕ) (xs : List Order) (o : Order)
    (quantity : ℕ) (ys : List Order) (p' : Pool) (l' : PriceLevels) : Type 0 where
  pub valid : IsValid p'
  pub used : p'.in_use ≡ p.in_use
  pub same_capacity : p'.capacity ≡ p.capacity
  pub same_side : l'.side ≡ l.side
  pub same_best : l'.best_tick ≡ l.best_tick
  pub same_bitmap : l'.bitmap ≡ l.bitmap
  pub same_sequencer : (l'.levels t).next_priority ≡ (l.levels t).next_priority
  pub same_first : (l'.levels t).first_order ≡ (l.levels t).first_order
  pub same_last : (l'.levels t).last_order ≡ (l.levels t).last_order
  pub total : (l'.levels t).total_quantity ≡ sub64 (l.levels t).total_quantity quantity
  pub other_levels : (u : ℕ) → u ≢ t → l'.levels u ≡ l.levels u
  pub other_nodes : (j : ℕ) → j ≢ o.ptr → p'.slot j ≡ p.slot j
  pub side_inv : SideInv p'.slot l' (fill_at q t xs o quantity ys)
  pub untouched : Untouched p.slot p'.slot (ref_at l.side t)
  pub others : (j : ℕ) → identity_at (p'.slot j) ≡ identity_at (p.slot j)

-- The node of the middle order is written; its identity and its links stay.
module _ (s : Slots) (ref : LevelRef) (xs ys : List Order) (o o' : Order) (same : o'.ptr ≡ o.ptr)
    (distinct : AllDistinct (ptrs (xs ++ o ∷ ys))) (seg : Seg s ref none none (xs ++ o ∷ ys)) where
  abbrev pub replaced : Slots
  replaced = update s o.ptr (object (node_of ref (last_or none xs) (first_or none ys) o'))

  Seg-replace : Seg replaced ref none none (xs ++ o' ∷ ys)
  Seg-replace =
      let (a, b) = Seg-split s ref none none xs (o ∷ ys) seg in
      let d = distinct_middle xs ys o distinct in
      let front : Seg replaced ref none (some o'.ptr) xs =
        subst (λ k. Seg replaced ref none (some k) xs) (sym same)
          (Seg-frame_one s ref o.ptr _ none (some o.ptr) xs d.0 a) in
      let back : Seg replaced ref (some o'.ptr) none ys =
        subst (λ k. Seg replaced ref (some k) none ys) (sym same)
          (Seg-frame_one s ref o.ptr _ (some o.ptr) none ys d.1 b.1) in
      Seg-append replaced ref none none xs (o' ∷ ys) front
        (ap replaced same ∙ update_self s o.ptr _, back)

-- The level after the fill.
filled-LevelInv :
    (s s' : Slots) (ref : LevelRef) (level : FifoLevel) (xs ys : List Order) (o : Order)
    (quantity : ℕ)
    → quantity ≤ o.remaining
    → LevelInv s ref level (xs ++ o ∷ ys)
    → Seg s' ref none none (xs ++ filled o quantity ∷ ys)
    → LevelInv s' ref
        (record level { total_quantity = sub64 level.total_quantity quantity })
        (xs ++ filled o quantity ∷ ys)
filled-LevelInv s s' ref level xs ys o quantity le v g = record {
  seg = g;
  distinct = subst AllDistinct (sym (ptrs-replace xs ys o (filled o quantity) refl)) v.distinct;
  first = v.first ∙ sym (first_or-replace none xs ys o (filled o quantity) refl);
  last = v.last ∙ sym (last_or-replace none xs ys o (filled o quantity) refl);
  total = omega (
    arith,
    v.total,
    sum_remaining_middle xs ys o,
    sum_remaining_middle xs ys (filled o quantity),
  );
  reset = λ e. cc (sym (nonempty_middle xs ys (filled o quantity)) ∙ e);
}

-- A change of the queue of one tick that leaves it with orders.
module _ (s s' : Slots) (l : PriceLevels) (q : Queues) (t : ℕ) (level : FifoLevel) (os : List Order)
    (inv : SideInv s l q) (inside : t < tick_count) (untouched : Untouched s s' (ref_at l.side t))
    (here : LevelInv s' (ref_at l.side t) level os) where
  pub changed_levels :
      (u : ℕ) → LevelInv s' (ref_at l.side u) (update l.levels t level u) (update q t os u)
  changed_levels =
      update_both (λ u. LevelInv s' (ref_at l.side u)) l.levels q t level os here
        (λ u ne.
          LevelInv-Untouched s s' (ref_at l.side t) (ref_at l.side u) (l.levels u) (q u)
            (λ e. ne (ap (λ r. r.index) e)) untouched (inv.level_inv u))

  pub changed_outside : (u : ℕ) → tick_count ≤ u → update q t os u ≡ []
  changed_outside u h = rw (ne→== u t (omega arith)) (inv.inside u h)

  pub SideInv-changed :
      nonempty os ≡ has_orders q t
      → SideInv s' (record l { levels = update l.levels t level }) (update q t os)
  SideInv-changed full = record {
    level_inv = changed_levels;
    inside = changed_outside;
    bits = λ u. inv.bits u ∙ sym (same u);
    summarised = inv.summarised;
    best = IsBest-ext l.side (has_orders q) (has_orders (update q t os)) l.best_tick same inv.best;
  }
    where
      same : (u : ℕ) → has_orders (update q t os) u ≡ has_orders q u
      same u = elim (Bool-cases (u == t)) [
        | inl e ↦ rw e (full ∙ ap (has_orders q) (sym (==→eq u t e)))
        | inr e ↦ rw e
      ]

-- On a valid side, ApplyFill of at most the remaining quantity of a resting order returns; it
-- takes the quantity from that order and from the total of its level; the invariant holds again,
-- and no other node, no other level, nothing else of the level, not the bitmap and not the best
-- tick changed.
pub apply_fill-Filled :
    (p : Pool) (l : PriceLevels) (q : Queues) (t : ℕ) (xs ys : List Order) (o : Order)
    (quantity : ℕ)
    → IsValid p
    → SideInv p.slot l q
    → t < tick_count
    → q t ≡ xs ++ o ∷ ys
    → quantity ≤ o.remaining
    → o.remaining < u32_mod
    → (p' : Pool) × (l' : PriceLevels) × (apply_fill p l o.ptr quantity ≡ some (p', l'))
      × Filled p l q t xs o quantity ys p' l'
unfolding apply_fill
apply_fill-Filled p l q t xs ys o quantity v inv inside eq le word =
    let ref = ref_at l.side t in
    let lv : LevelInv p.slot ref (l.levels t) (xs ++ o ∷ ys) =
      subst (LevelInv p.slot ref (l.levels t)) eq (inv.level_inv t) in
    let n : OrderNode = node_of ref (last_or none xs) (first_or none ys) o in
    let n' : OrderNode = record n { remaining_quantity = sub32 o.remaining quantity } in
    let at : p.slot o.ptr ≡ object n = node_at p.slot ref xs ys o lv.seg in
    let word_sub : sub32 o.remaining quantity ≡ o.remaining - quantity = omega arith in
    let s' : Slots = update p.slot o.ptr (object n') in
    let seg' : Seg s' ref none none (xs ++ filled o quantity ∷ ys) =
      subst
        (λ k.
          Seg (update p.slot o.ptr (object (record n { remaining_quantity = k }))) ref none none
            (xs ++ filled o quantity ∷ ys))
        (sym word_sub)
        (Seg-replace p.slot ref xs ys o (filled o quantity) refl lv.distinct lv.seg) in
    let untouched = Untouched-write p.slot o.ptr n (object n') ref at refl in
    let level' : FifoLevel = record (l.levels t) {
      total_quantity = sub64 (l.levels t).total_quantity quantity;
    } in
    (
      record p { slot = s' },
      record l { levels = update l.levels t level' },
      rw (
        load-eq p o.ptr n at,
        level_of-node l t _ _ o inside,
        le→leb quantity o.remaining le,
        modify-eq (λ k. record k { remaining_quantity = sub32 k.remaining_quantity quantity }) p
            o.ptr n at,
      ),
      record {
        valid = modify-IsValid p o.ptr n n' v at;
        used = refl;
        same_capacity = refl;
        same_side = refl;
        same_best = refl;
        same_bitmap = refl;
        same_sequencer = ap (λ (k : FifoLevel). k.next_priority) (update_self l.levels t level');
        same_first = ap (λ (k : FifoLevel). k.first_order) (update_self l.levels t level');
        same_last = ap (λ (k : FifoLevel). k.last_order) (update_self l.levels t level');
        total = ap (λ (k : FifoLevel). k.total_quantity) (update_self l.levels t level');
        other_levels = λ u ne. update_ne l.levels t u level' ne;
        other_nodes = λ j ne. update_ne p.slot o.ptr j (object n') ne;
        side_inv =
            SideInv-changed p.slot s' l q t level' (xs ++ filled o quantity ∷ ys) inv inside
              untouched (filled-LevelInv p.slot s' ref (l.levels t) xs ys o quantity le lv seg')
              (nonempty_middle xs ys (filled o quantity)
                ∙ sym (ap nonempty eq ∙ nonempty_middle xs ys o));
        untouched = untouched;
        others = identity-write p.slot o.ptr n n' at refl;
      },
    )
