-- ===== src/MarketOrderBook/Relead.antt =====
-- trading/strategy/market_order_book.h: `removeOrder` makes the order after the first the first one of
-- its level.
use yquant_system.Base.{
  ℕ, ◌≡◌, false, Option, some, none, List, [], ◌∷◌, ◌++◌, refl, sym, ◌∙◌, has, AllDistinct, ap,
  ==_self, nonempty, subst, ne→==, if◌then◌else◌,
}
use yquant_system.Base.Int.{ℤ}
use yquant_system.Types.{Side}
use yquant_system.MemPool.{MemPool, object}
use yquant_system.MemPool.Inv.{IsValid}
use yquant_system.MemPool.Free.{modify-eq, modify-IsValid}
use yquant_system.MarketOrderBook.{MarketOrdersAtPrice, same_pointer, write}
use yquant_system.MarketOrderBook.Links.{ptrs, first_or, Ring, Seg-at}
use yquant_system.MarketOrderBook.Replace.{Ring-replace}
use yquant_system.MarketOrderBook.Levels.{Level, on_side}
use yquant_system.MarketOrderBook.Circle.{put, level_node}
use yquant_system.MarketOrderBook.Join.{ne_head}
use yquant_system.MarketOrderBook.Order.{IsSorted, AllWorse}
use yquant_system.MarketOrderBook.Orders.{Item, in_level}

-- The level with another first order.
abbrev pub with_first : Level → Option ℕ → Level
with_first l f = record l { first = f }

AllWorse-first :
    (side : Side) (price : ℤ) (xs : List Level) (l : Level) (f : Option ℕ) (ys : List Level)
    → AllWorse side price (xs ++ l ∷ ys)
    → AllWorse side price (xs ++ with_first l f ∷ ys)
AllWorse-first side price [] l f ys h = h
AllWorse-first side price (x ∷ xs) l f ys h = (h.0, AllWorse-first side price xs l f ys h.1)

pub IsSorted-first :
    (side : Side) (xs : List Level) (l : Level) (f : Option ℕ) (ys : List Level)
    → IsSorted side (xs ++ l ∷ ys)
    → IsSorted side (xs ++ with_first l f ∷ ys)
IsSorted-first side [] l f ys h = h
IsSorted-first side (x ∷ xs) l f ys h =
    (AllWorse-first side x.price xs l f ys h.0, IsSorted-first side xs l f ys h.1)

level_links :
    (side : Side) (l : Level) (u t a c : Option ℕ)
    → object (level_node side u t l) ≡ object (level_node side a c l)
    → (u ≡ a) × (t ≡ c)
level_links side l u t a c e = (cc, cc)

module _ (side : Side) (p : MemPool MarketOrdersAtPrice) (ws : List Level) (l : Level)
    (vs : List Level) (os : List Item) (z : Item) (ps : List Item) (next : ℕ) (valid : IsValid p)
    (distinct : AllDistinct (ptrs (on_side side) (ws ++ l ∷ vs)))
    (ring : Ring (on_side side) p.slot (ws ++ l ∷ vs))
    (first : l.first ≡ first_or in_level none (os ++ z ∷ ps))
    (lead : first_or in_level none (os ++ ps)
      ≡ (if nonempty os then first_or in_level none os else some next))
    (once : has z.ptr (ptrs in_level (os ++ ps)) ≡ false) where
  abbrev l' : Level
  l' = with_first l (first_or in_level none (os ++ ps))

  pub level_at : (u : Option ℕ) × (t : Option ℕ) × (p.slot l.ptr ≡ object (level_node side u t l))
  level_at = Seg-at (on_side side) p.slot _ _ (ws) l (vs) ring

  -- The write of the first order of the level, if the order was the first.
  abbrev pub Relead : Option (MemPool MarketOrdersAtPrice) → Type 0
  Relead run =
      (w : MemPool MarketOrdersAtPrice) × (run ≡ some w)
      × IsValid w
      × Ring (on_side side) w.slot (ws ++ l' ∷ vs)

  pub relead : Relead (
      if same_pointer l.first (some z.ptr)
      then write (some l.ptr) (λ n. record n { first_mkt_order = some next }) p
      else some p)
  relead = cases os refl
    where
      is_first :
          os ≡ [] → Relead (write (some l.ptr) (λ n. record n { first_mkt_order = some next }) p)
      is_first e = (
        put p l.ptr (level_node side level_at.0 level_at.1 l'),
        modify-eq (λ n. record n { first_mkt_order = some next }) p l.ptr _ level_at.2
            ∙ ap (λ f. some (put p l.ptr (level_node side level_at.0 level_at.1 (with_first l f))))
                (sym
                  (lead ∙ ap (λ r. if nonempty r then first_or in_level none r else some next) e)),
        modify-IsValid p l.ptr _ _ valid level_at.2,
        Ring-replace (on_side side) l l' refl p.slot (ws) (vs) level_at.0 level_at.1 distinct
            level_at.2 (λ a c. level_links side l level_at.0 level_at.1 a c) ring,
      )

      stays : (x : Item) (xs : List Item) → os ≡ x ∷ xs → Relead (some p)
      stays x xs e = (
        p,
        refl,
        valid,
        subst (λ m. Ring (on_side side) p.slot (ws ++ m ∷ vs))
            (ap (with_first l) (
              first
              ∙ ap (λ r. first_or in_level none (r ++ z ∷ ps)) e
              ∙ ap (λ r. first_or in_level none (r ++ ps)) (sym e)))
            ring,
      )

      cases :
          (r : List Item)
          → os ≡ r
          → Relead (
              if same_pointer l.first (some z.ptr)
              then write (some l.ptr) (λ n. record n { first_mkt_order = some next }) p
              else some p)
      cases [] e =
          rw (first ∙ ap (λ r. first_or in_level none (r ++ z ∷ ps)) e, ==_self z.ptr) (is_first e)
      cases (x ∷ xs) e =
          let absent = subst (λ r. has z.ptr (ptrs in_level (r ++ ps)) ≡ false) e once in
          rw
            (
              first ∙ ap (λ r. first_or in_level none (r ++ z ∷ ps)) e,
              ne→== x.ptr z.ptr
                  (λ f. ne_head z.ptr x.ptr (ptrs in_level (xs ++ ps)) absent (sym f)),
            )
            (stays x xs e)
