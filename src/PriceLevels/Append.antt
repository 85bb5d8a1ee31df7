-- ===== src/PriceLevels/Append.antt =====
-- exchange/matcher/price_levels.cc: the links, the aggregates and the bitmap after an append.
use yquant_system.Base.{
  ℕ, ◌≤◌, ◌<◌, ◌≡◌, ◌≢◌, true, false, ◌||◌, Option, none, some, List, [], ◌∷◌, ◌++◌, arith, sym,
  ◌∙◌, ap, ap, has, update, update_ne, if◌then◌else◌, ◌==◌, subst, ne→==, Bool-cases, inl, inr,
  ==→eq, nonempty-append_one,
}
use mathlib.Core.Bool.{or-true, or-false}
use yquant_system.MemPool.{object, object_at}
use yquant_system.Bitmap.{tick_count}
use yquant_system.Bitmap.Marks.{occupied-mark_occupied, mark_occupied-IsSummarised}
use yquant_system.PriceLevels.{
  LevelRef, OrderNode, FifoLevel, PriceLevels, append_to, occupy, level_is_empty,
}
use yquant_system.PriceLevels.Queue.{
  Order, Slots, node_of, ptrs, first_or, last_or, Seg, Seg-append, LastNode,
}
use yquant_system.PriceLevels.Orders.{sum_remaining-append, AllDistinct-append, last_or-append_one}
use yquant_system.PriceLevels.Inv.{
  Queues, ref_at, LevelInv, SideInv, has_orders, Untouched, LevelInv-Untouched, identity_at,
  order_identity, update_both, append_at,
}
use yquant_system.PriceLevels.Best.{IsBest-ext, IsBest-occupy}

-- The level after the append.
append_to-LevelInv :
    (s : Slots) (ref : LevelRef) (level : FifoLevel) (os : List Order) (s' : Slots) (o : Order)
    → LevelInv s ref level os
    → Seg s' ref none none (os ++ o ∷ [])
    → has o.ptr (ptrs os) ≡ false
    → LevelInv s' ref (append_to level o.ptr o.remaining) (os ++ o ∷ [])
unfolding append_to
append_to-LevelInv s ref level os s' o v g n = record {
  seg = g;
  distinct = AllDistinct-append os o v.distinct n;
  first = head os v.first;
  last = sym (last_or-append_one none os o);
  total = omega (arith, v.total, sum_remaining-append os o);
  reset = λ e. cc (sym (nonempty-append_one os o) ∙ e);
}
  where
    head :
        (os : List Order)
        → level.first_order ≡ first_or none os
        → (if level_is_empty level then some o.ptr else level.first_order)
          ≡ first_or none (os ++ o ∷ [])
    head [] e = rw e
    head (x ∷ xs) e = rw e

-- The links after the new node was written and the old tail was linked to it.
pub record Appended (s s' : Slots) (ref : LevelRef) (os : List Order) (o : Order) : Type 0 where
  pub seg : Seg s' ref none none (os ++ o ∷ [])
  pub untouched : Untouched s s' ref
  pub others : (j : ℕ) → j ≢ o.ptr → identity_at (s' j) ≡ identity_at (s j)
  pub entered : identity_at (s' o.ptr) ≡ some (order_identity ref o)

-- `s1` is the pool after the new node, which held no object before, was written.
module _ (s s1 : Slots) (ref : LevelRef) (o : Order) (last : Option ℕ)
    (fresh : object_at (s o.ptr) ≡ none) (new : s1 o.ptr ≡ object (node_of ref last none o))
    (old : (j : ℕ) → j ≢ o.ptr → s1 j ≡ s j) where
  not_new : (j : ℕ) (n : OrderNode) → s j ≡ object n → j ≢ o.ptr
  not_new j n h e = cc (sym (ap object_at h) ∙ subst (λ k. object_at (s k) ≡ none) (sym e) fresh)

  pub append_first : last ≡ none → Appended s s1 ref [] o
  append_first e = record {
    seg = (new ∙ ap (λ k. object (node_of ref k none o)) e, tt);
    untouched = λ j n h ne. old j (not_new j n h);
    others = λ j ne. ap identity_at (old j ne);
    entered = ap identity_at new;
  }

  pub append_after :
      (os : List Order) (l : Order) (before : Option ℕ)
      → last ≡ last_or none os
      → has o.ptr (ptrs os) ≡ false
      → LastNode s1 ref none none os l before
      → Appended s (update s1 l.ptr (object (node_of ref before (some o.ptr) l))) ref os o
  append_after os l before e n r = record {
    seg =
        Seg-append s2 ref none none os (o ∷ []) (r.relinked (some o.ptr))
          (update_ne s1 l.ptr o.ptr _ apart ∙ new ∙ ap (λ k. object (node_of ref k none o)) e, tt);
    untouched = λ j m h ne.
        update_ne s1 l.ptr j _ (λ f. ne (
          same_level (
            sym (old j (not_new j m h) ∙ h)
            ∙ subst (λ k. s1 k ≡ object (node_of ref before none l)) (sym f) r.node)))
        ∙ old j (not_new j m h);
    others = λ j ne. keep j (old j ne);
    entered = ap identity_at (update_ne s1 l.ptr o.ptr _ apart ∙ new);
  }
    where
      s2 : Slots
      s2 = update s1 l.ptr (object (node_of ref before (some o.ptr) l))

      apart : o.ptr ≢ l.ptr
      apart e = cc (sym (subst (λ k. has k (ptrs os) ≡ false) e n) ∙ r.mem)

      same_level :
          {m : OrderNode} → object m ≡ object (node_of ref before none l) → m.level ≡ some ref
      same_level e = cc

      keep : (j : ℕ) → s1 j ≡ s j → identity_at (s2 j) ≡ identity_at (s j)
      keep j e = elim (Bool-cases (j == l.ptr)) [
        | inl f ↦ rw f (
            ap identity_at (sym r.node)
            ∙ ap (λ k. identity_at (s1 k)) (sym (==→eq j l.ptr f))
            ∙ ap identity_at e)
        | inr f ↦ rw f (ap identity_at e)
      ]

-- The side after the append, at a tick whose level was empty and at one whose level was not.
module _ (s s' : Slots) (l : PriceLevels) (q : Queues) (t : ℕ) (o : Order) (inv : SideInv s l q)
    (inside : t < tick_count) (a : Appended s s' (ref_at l.side t) (q t) o)
    (fresh : has o.ptr (ptrs (q t)) ≡ false) where
  appended_levels :
      (u : ℕ)
      → LevelInv s'
          (ref_at l.side u)
          (update l.levels t (append_to (l.levels t) o.ptr o.remaining) u)
          (append_at q t o u)
  appended_levels =
      update_both (λ u. LevelInv s' (ref_at l.side u)) l.levels q t _ _
        (append_to-LevelInv s (ref_at l.side t) (l.levels t) (q t) s' o (inv.level_inv t) a.seg
          fresh)
        (λ u ne.
          LevelInv-Untouched s s' (ref_at l.side t) (ref_at l.side u) (l.levels u) (q u)
            (λ e. ne (ap (λ r. r.index) e)) a.untouched (inv.level_inv u))

  outside : (u : ℕ) → tick_count ≤ u → append_at q t o u ≡ []
  outside u h = rw (ne→== u t (omega arith)) (inv.inside u h)

  appended_orders : (u : ℕ) → has_orders (append_at q t o) u ≡ (has_orders q u || (u == t))
  appended_orders u = elim (Bool-cases (u == t)) [
    | inl e ↦ rw e (nonempty-append_one (q t) o ∙ sym (or-true (has_orders q u)))
    | inr e ↦ rw e (sym (or-false (has_orders q u)))
  ]

  pub SideInv-occupied :
      SideInv s'
        (occupy
          (record l { levels = update l.levels t (append_to (l.levels t) o.ptr o.remaining) })
          t)
        (append_at q t o)
  unfolding occupy
  SideInv-occupied = record {
    level_inv = appended_levels;
    inside = outside;
    bits = λ u.
        occupied-mark_occupied l.bitmap t u
        ∙ ap (λ b. b || (u == t)) (inv.bits u)
        ∙ sym (appended_orders u);
    summarised = mark_occupied-IsSummarised l.bitmap t inv.summarised;
    best =
        IsBest-occupy l.side (has_orders q) (has_orders (append_at q t o)) l.best_tick t inside
          appended_orders inv.best;
  }

  pub SideInv-appended :
      has_orders q t ≡ true
      → SideInv s'
          (record l { levels = update l.levels t (append_to (l.levels t) o.ptr o.remaining) })
          (append_at q t o)
  SideInv-appended full = record {
    level_inv = appended_levels;
    inside = outside;
    bits = λ u. inv.bits u ∙ sym (same u);
    summarised = inv.summarised;
    best =
        IsBest-ext l.side (has_orders q) (has_orders (append_at q t o)) l.best_tick same inv.best;
  }
    where
      same : (u : ℕ) → has_orders (append_at q t o) u ≡ has_orders q u
      same u = ground (arith, appended_orders u, full)
