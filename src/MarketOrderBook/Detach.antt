-- ===== src/MarketOrderBook/Detach.antt =====
-- trading/strategy/market_order_book.h: the circle of a side after a level left it.
use yquant_system.Base.{
  ℕ, ◌≡◌, ◌≢◌, false, Option, some, none, List, [], ◌∷◌, ◌++◌, refl, sym, ◌∙◌, has, AllDistinct,
  ==_self, ap, subst, ne→==, if◌then◌else◌,
}
use mathlib.Core.List.{append-nil}
use yquant_system.Types.{Side}
use yquant_system.MemPool.{MemPool, object}
use yquant_system.MemPool.Inv.{IsValid}
use yquant_system.MemPool.Free.{load-eq, modify-eq, modify-IsValid}
use yquant_system.MarketOrderBook.{
  MarketOrdersAtPrice, MarketOrderBook, best_of, set_best, set_levels, unlink_from_side,
  unlink_level, same_pointer, set_next_entry, set_prev_entry,
}
use yquant_system.MarketOrderBook.Links.{
  Linked, ptrs, first_or, last_or, Seg, Ring, last_item, last_or-eq, last_or-append, Seg-split,
  AllDistinct-split, AllDistinct-without,
}
use yquant_system.MarketOrderBook.Levels.{Level, on_side}
use yquant_system.MarketOrderBook.Circle.{put, level_node}
use yquant_system.MarketOrderBook.Join.{ne_head}
use yquant_system.MarketOrderBook.Insert.{with_side}
use yquant_system.MarketOrderBook.Lead.{set_best-same, best_of-set_levels}
use yquant_system.MarketOrderBook.Leave.{Left, Unlinks, leave_end}
use yquant_system.MarketOrderBook.Within.{leave_between}

pub unlink_level-Unlinks : (side : Side) → Unlinks (on_side side) unlink_level
unfolding unlink_level
unlink_level-Unlinks side p z u t before_u after_u before_t after_t v ez eu e1z e1t e2z =
    let q1 = put p u.ptr (level_node side before_u (some t.ptr) u) in
    let q2 = put q1 t.ptr (level_node side (some u.ptr) after_t t) in
    let v1 = modify-IsValid p u.ptr _ (level_node side before_u (some t.ptr) u) v eu in
    let v2 = modify-IsValid q1 t.ptr _ (level_node side (some u.ptr) after_t t) v1 e1t in
    let v3 = modify-IsValid q2 z.ptr _ (level_node side none none z) v2 e2z in
    (
      rw
          (
            load-eq p z.ptr _ ez,
            modify-eq (set_next_entry (some t.ptr)) p u.ptr _ eu,
            load-eq q1 z.ptr _ e1z,
            modify-eq (set_prev_entry (some u.ptr)) q1 t.ptr _ e1t,
            load-eq q2 z.ptr _ e2z,
            modify-eq (λ n. set_prev_entry none (set_next_entry none n)) q2 z.ptr _ e2z,
          )
          refl,
      v3,
    )

module _ (side : Side) (b : MarketOrderBook) (z : Level) (v : IsValid b.orders_at_price_pool) where
  abbrev k : Linked MarketOrdersAtPrice Level
  k = on_side side

  abbrev p : MemPool MarketOrdersAtPrice
  p = b.orders_at_price_pool

  abbrev LeftBy : List Level → Type 0
  LeftBy ws =
      (p' : MemPool MarketOrdersAtPrice) × (unlink_from_side z.ptr side b
        ≡ some (with_side side p' ws b))
      × Left (on_side side) p p' ws z

  -- A level that leaves others behind: what is left of the run.
  shrink :
      (u t : Option ℕ) (next : Option ℕ) (p' : MemPool MarketOrdersAtPrice)
      → p.slot z.ptr ≡ object (level_node side u t z)
      → same_pointer t (some z.ptr) ≡ false
      → unlink_level z.ptr p ≡ some (next, p')
      → unlink_from_side z.ptr side b
        ≡ some (
            if same_pointer (some z.ptr) (best_of side b)
            then set_best side next (set_levels p' b)
            else set_levels p' b)
  unfolding unlink_from_side
  shrink u t next p' e ne run = rw (load-eq p z.ptr _ e, ne, run) refl

  leave_alone : Ring k p.slot (z ∷ []) → LeftBy []
  unfolding unlink_from_side
  leave_alone ring = (
    p,
    rw (load-eq p z.ptr _ ring.0, ==_self z.ptr) refl,
    record { valid = v; ring = tt; stays = (_, ring.0); others = λ j h. refl },
  )

  leave_first :
      (r : Level) (rs : List Level)
      → AllDistinct (ptrs k (z ∷ r ∷ rs))
      → Ring k p.slot (z ∷ r ∷ rs)
      → best_of side b ≡ some z.ptr
      → LeftBy (r ∷ rs)
  leave_first r rs d ring best =
      let old : p.slot z.ptr
          ≡ object (level_node side (some (last_item k r rs).ptr) (some r.ptr) z) =
        ring.0
        ∙ ap (λ q. object (level_node side q (some r.ptr) z)) (last_or-eq k (some z.ptr) r rs) in
      let (p', run, l) =
        leave_end k unlink_level (unlink_level-Unlinks side) p z r rs v d ring.1 old in
      (
        p',
        shrink _ _ (some r.ptr) p' old
              (ne→== r.ptr z.ptr (λ e. ne_head z.ptr r.ptr (ptrs k rs) d.0 (sym e))) run
            ∙ rw (best, ==_self z.ptr) refl,
        l,
      )

  -- The best level stays where it is.
  best_stays :
      (x : Level) (u t next : Option ℕ) (p' : MemPool MarketOrdersAtPrice)
      → p.slot z.ptr ≡ object (level_node side u t z)
      → same_pointer t (some z.ptr) ≡ false
      → unlink_level z.ptr p ≡ some (next, p')
      → z.ptr ≢ x.ptr
      → best_of side b ≡ some x.ptr
      → unlink_from_side z.ptr side b ≡ some (set_best side (some x.ptr) (set_levels p' b))
  best_stays x u t next p' e ne run zx best =
      shrink u t next p' e ne run
      ∙ rw (best, ne→== z.ptr x.ptr zx)
          (ap some (
            sym (
              set_best-same side (some x.ptr) (set_levels p' b)
                (best_of-set_levels side p' b ∙ best))))

  leave_last :
      (x : Level) (front : List Level)
      → AllDistinct (ptrs k ((x ∷ front) ++ z ∷ []))
      → Ring k p.slot ((x ∷ front) ++ z ∷ [])
      → best_of side b ≡ some x.ptr
      → LeftBy (x ∷ front)
  leave_last x front d ring best =
      let (s, m) = Seg-split k p.slot _ (some x.ptr) (x ∷ front) (z ∷ []) ring in
      let seg =
        subst (λ q. Seg k p.slot q (some z.ptr) (x ∷ front)) (last_or-append k none (x ∷ front) z)
          s in
      let old =
        m.0
        ∙ ap (λ q. object (level_node side q (some x.ptr) z))
            (last_or-eq k (last_or k none ((x ∷ front) ++ z ∷ [])) x front) in
      let absent : has z.ptr (ptrs k (x ∷ front)) ≡ false =
        subst (λ l. has z.ptr (ptrs k l) ≡ false) (append-nil (x ∷ front))
          (AllDistinct-without k (x ∷ front) z [] d) in
      let zx = ne_head z.ptr x.ptr (ptrs k front) absent in
      let (p', run, l) =
        leave_end k unlink_level (unlink_level-Unlinks side) p z x front v
          (absent, (AllDistinct-split k (x ∷ front) (z ∷ []) d).0) seg old in
      (
        p',
        best_stays x _ _ (some x.ptr) p' old (ne→== x.ptr z.ptr (λ e. zx (sym e))) run zx best,
        l,
      )

  leave_middle :
      (x : Level) (front : List Level) (t : Level) (back : List Level)
      → AllDistinct (ptrs k ((x ∷ front) ++ z ∷ t ∷ back))
      → Ring k p.slot ((x ∷ front) ++ z ∷ t ∷ back)
      → best_of side b ≡ some x.ptr
      → LeftBy ((x ∷ front) ++ t ∷ back)
  leave_middle x front t back d ring best =
      let (s, m) = Seg-split k p.slot _ (some x.ptr) (x ∷ front) (z ∷ t ∷ back) ring in
      let absent = AllDistinct-without k (x ∷ front) z (t ∷ back) d in
      let after = (AllDistinct-split k (x ∷ front) (z ∷ t ∷ back) d).1 in
      let (p', run, l) =
        leave_between k unlink_level (unlink_level-Unlinks side) p z x front t back v d ring in
      (
        p',
        best_stays x _ _ (some t.ptr) p' m.0
            (ne→== t.ptr z.ptr (λ e. ne_head z.ptr t.ptr (ptrs k back) after.0 (sym e))) run
            (ne_head z.ptr x.ptr (ptrs k (front ++ t ∷ back)) absent) best,
        l,
      )

  pub unlink_from_side-Left :
      (front back : List Level)
      → AllDistinct (ptrs k (front ++ z ∷ back))
      → Ring k p.slot (front ++ z ∷ back)
      → best_of side b ≡ first_or k none (front ++ z ∷ back)
      → LeftBy (front ++ back)
  unlink_from_side-Left [] [] d ring best = leave_alone ring
  unlink_from_side-Left [] (r ∷ rs) d ring best = leave_first r rs d ring best
  unlink_from_side-Left (x ∷ front) [] d ring best =
      subst LeftBy (sym (append-nil (x ∷ front))) (leave_last x front d ring best)
  unlink_from_side-Left (x ∷ front) (t ∷ back) d ring best = leave_middle x front t back d ring best
