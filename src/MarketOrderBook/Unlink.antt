-- ===== src/MarketOrderBook/Unlink.antt =====
-- trading/strategy/market_order_book.h: an order leaves the circle of a level that has others.
use yquant_system.Base.{
  ℕ, ◌≡◌, ◌≢◌, true, false, some, none, List, [], ◌∷◌, ◌++◌, refl, sym, ◌∙◌, has, AllDistinct, ap,
  subst, nonempty, if◌then◌else◌,
}
use mathlib.Core.List.{append-nil}
use yquant_system.MemPool.{MemPool, object}
use yquant_system.MemPool.Inv.{IsValid}
use yquant_system.MarketOrderBook.{MarketOrder}
use yquant_system.MarketOrderBook.Updates.{unlink_node}
use yquant_system.MarketOrderBook.Links.{
  Linked, ptrs, first_or, last_or, Seg, Ring, Seg-split, last_item, last_or-eq, last_or-append,
  AllDistinct-split, AllDistinct-without, has_last, apart,
}
use yquant_system.MarketOrderBook.Join.{ne_head}
use yquant_system.MarketOrderBook.Leave.{Left, leave_end}
use yquant_system.MarketOrderBook.Within.{leave_between}
use yquant_system.MarketOrderBook.Orders.{Item, in_level, order_node, unlink_node-Unlinks}

-- `z` between `os` and `ps` had its links taken.
pub record Unlinked (p : MemPool MarketOrder) (os : List Item) (z : Item) (ps : List Item)
    : Type 0 where
  pub prev : ℕ
  pub next : ℕ
  pub pool : MemPool MarketOrder
  pub node : p.slot z.ptr ≡ object (order_node (some prev) (some next) z)
  pub other : prev ≢ z.ptr
  pub run : unlink_node z.ptr p ≡ some (some next, pool)
  pub left : Left in_level p pool (os ++ ps) z
  pub lead :
      first_or in_level none (os ++ ps)
      ≡ (if nonempty os then first_or in_level none os else some next)

module _ (p : MemPool MarketOrder) (z : Item) (v : IsValid p) where
  abbrev k : Linked MarketOrder Item
  k = in_level

  first :
      (r : Item) (rs : List Item)
      → AllDistinct (ptrs k (z ∷ r ∷ rs))
      → Ring k p.slot (z ∷ r ∷ rs)
      → Unlinked p [] z (r ∷ rs)
  first r rs d ring =
      let w = last_item k r rs in
      let old : p.slot z.ptr ≡ object (order_node (some w.ptr) (some r.ptr) z) =
        ring.0 ∙ ap (λ q. object (order_node q (some r.ptr) z)) (last_or-eq k (some z.ptr) r rs) in
      let (p', run, l) = leave_end k unlink_node unlink_node-Unlinks p z r rs v d ring.1 old in
      record {
        prev = w.ptr;
        next = r.ptr;
        pool = p';
        node = old;
        other = λ e. apart k z.ptr w.ptr (ptrs k (r ∷ rs)) d.0 (has_last k r rs) (sym e);
        run = run;
        left = l;
        lead = refl;
      }

  last :
      (x : Item) (front : List Item)
      → AllDistinct (ptrs k ((x ∷ front) ++ z ∷ []))
      → Ring k p.slot ((x ∷ front) ++ z ∷ [])
      → Unlinked p (x ∷ front) z []
  last x front d ring =
      let w = last_item k x front in
      let (s, m) = Seg-split k p.slot _ (some x.ptr) (x ∷ front) (z ∷ []) ring in
      let seg =
        subst (λ q. Seg k p.slot q (some z.ptr) (x ∷ front)) (last_or-append k none (x ∷ front) z)
          s in
      let old : p.slot z.ptr ≡ object (order_node (some w.ptr) (some x.ptr) z) =
        m.0
        ∙ ap (λ q. object (order_node q (some x.ptr) z))
            (last_or-eq k (last_or k none ((x ∷ front) ++ z ∷ [])) x front) in
      let absent : has z.ptr (ptrs k (x ∷ front)) ≡ false =
        subst (λ l. has z.ptr (ptrs k l) ≡ false) (append-nil (x ∷ front))
          (AllDistinct-without k (x ∷ front) z [] d) in
      let (p', run, l) =
        leave_end k unlink_node unlink_node-Unlinks p z x front v
          (absent, (AllDistinct-split k (x ∷ front) (z ∷ []) d).0) seg old in
      record {
        prev = w.ptr;
        next = x.ptr;
        pool = p';
        node = old;
        other = λ e. apart k z.ptr w.ptr (ptrs k (x ∷ front)) absent (has_last k x front) (sym e);
        run = run;
        left = subst (λ l. Left k p p' l z) (sym (append-nil (x ∷ front))) l;
        lead = refl;
      }

  middle :
      (x : Item) (front : List Item) (t : Item) (back : List Item)
      → AllDistinct (ptrs k ((x ∷ front) ++ z ∷ t ∷ back))
      → Ring k p.slot ((x ∷ front) ++ z ∷ t ∷ back)
      → Unlinked p (x ∷ front) z (t ∷ back)
  middle x front t back d ring =
      let w = last_item k x front in
      let (s, m) = Seg-split k p.slot _ (some x.ptr) (x ∷ front) (z ∷ t ∷ back) ring in
      let parts = AllDistinct-split k (x ∷ front) (z ∷ t ∷ back) d in
      let old : p.slot z.ptr ≡ object (order_node (some w.ptr) (some t.ptr) z) =
        m.0
        ∙ ap (λ q. object (order_node q (some t.ptr) z))
            (last_or-eq k (last_or k none ((x ∷ front) ++ z ∷ t ∷ back)) x front) in
      let (p', run, l) =
        leave_between k unlink_node unlink_node-Unlinks p z x front t back v d ring in
      record {
        prev = w.ptr;
        next = t.ptr;
        pool = p';
        node = old;
        other = ne_head w.ptr z.ptr (ptrs k (t ∷ back)) (parts.2 w.ptr (has_last k x front));
        run = run;
        left = l;
        lead = refl;
      }

  pub unlink_node-Unlinked :
      (os ps : List Item)
      → nonempty (os ++ ps) ≡ true
      → AllDistinct (ptrs k (os ++ z ∷ ps))
      → Ring k p.slot (os ++ z ∷ ps)
      → Unlinked p os z ps
  unlink_node-Unlinked [] [] n d ring = absurd (cc)
  unlink_node-Unlinked [] (r ∷ rs) n d ring = first r rs d ring
  unlink_node-Unlinked (x ∷ front) [] n d ring = last x front d ring
  unlink_node-Unlinked (x ∷ front) (t ∷ back) n d ring = middle x front t back d ring
