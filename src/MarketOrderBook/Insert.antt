-- ===== src/MarketOrderBook/Insert.antt =====
-- trading/strategy/market_order_book.h: `addOrdersAtPrice` puts a level where it belongs.
use yquant_system.Base.{
  ℕ, ◌≡◌, ◌≢◌, true, false, List, [], ◌∷◌, ◌++◌, refl, inl, inr, Bool-cases, ap, some, none, Option,
  ◌∙◌, AllDistinct, update, update_self, update_ne, sym, subst,
}
use yquant_system.Types.{Side, buy, sell, no_side}
use yquant_system.MemPool.{MemPool, object}
use yquant_system.MemPool.Inv.{IsValid}
use yquant_system.MemPool.Free.{load-eq, modify-eq, modify-IsValid}
use yquant_system.MarketOrderBook.{
  MarketOrdersAtPrice, MarketOrderBook, is_worse, link_level, link_on_side, link_alone,
  add_orders_at_price, best_of, set_best, set_levels, price_to_index, set_next_entry,
  set_prev_entry,
}
use yquant_system.MarketOrderBook.Links.{ptrs, first_or, Ring}
use yquant_system.MarketOrderBook.Levels.{Level, on_side, insert_level, place, find_place-eq}
use yquant_system.MarketOrderBook.Circle.{put, level_node}
use yquant_system.MarketOrderBook.Join.{Joined, join_first, join_last, ne_head}
use yquant_system.MarketOrderBook.Between.{join_between}
use yquant_system.MarketOrderBook.Order.{
  has_side, IsSorted, IsNew, is_worse_other, insert_level-IsSorted, place_cases,
}
use yquant_system.MarketOrderBook.Lead.{
  Joined-put, set_best-same, best_of-set_levels, set_levels-set_best, take_lead-keeps,
  take_lead-leads,
}

-- The book after a level joined its side: the pool of levels and the best level are new.
abbrev pub with_side :
    Side → MemPool MarketOrdersAtPrice → List Level → MarketOrderBook → MarketOrderBook
with_side side p ws b = set_best side (first_or (on_side side) none ws) (set_levels p b)

module _ (side : Side) (b : MarketOrderBook) (y : Level) (before_y after_y : Option ℕ)
    (sided : has_side side ≡ true) (v : IsValid b.orders_at_price_pool)
    (new : b.orders_at_price_pool.slot y.ptr ≡ object (level_node side before_y after_y y)) where
  abbrev p : MemPool MarketOrdersAtPrice
  p = b.orders_at_price_pool

  -- The outcome for the levels `ws` of the side.
  abbrev LinkedInto : Option (MarketOrderBook) → List Level → Type 0
  LinkedInto run ws =
      (p' : MemPool MarketOrdersAtPrice) × (run ≡ some (with_side side p' ws b))
      × Joined side p p' ws

  module _ (x : Level) (xs : List Level) (distinct : AllDistinct (ptrs (on_side side) (y ∷ x ∷ xs)))
      (ring : Ring (on_side side) p.slot (x ∷ xs)) (best : best_of side b ≡ some x.ptr)
      (fresh : y.price ≢ x.price) where
    same_best :
        (p' : MemPool MarketOrdersAtPrice)
        → set_best side (some x.ptr) (set_levels p' b) ≡ set_levels p' b
    same_best p' =
        set_best-same side (some x.ptr) (set_levels p' b) (best_of-set_levels side p' b ∙ best)

    link_first :
        is_worse side y.price x.price ≡ false
        → LinkedInto (link_level y.ptr x.ptr side y.price b) (y ∷ x ∷ xs)
    unfolding link_level
    link_first w =
        let (p', run, j) = join_first side p y x xs before_y after_y v distinct ring new in
        (
          put p' x.ptr _,
          rw
              (
                find_place-eq side p x xs v distinct.1 ring y.price,
                w,
                run,
                take_lead-leads y x xs side (set_levels p' b) (some y.ptr) j.ring.1.0
                    (is_worse_other side y.price x.price sided fresh w)
                    (ne_head y.ptr x.ptr (ptrs (on_side side) xs) distinct.0) distinct.1.0,
              )
              refl,
          Joined-put side p p' (y ∷ x ∷ xs) x.ptr _ j.ring.1.0 j,
        )

    link_between :
        (front : List Level) (z : Level) (back : List Level)
        → xs ≡ front ++ z ∷ back
        → is_worse side y.price x.price ≡ true
        → place side x.ptr y.price xs ≡ (some z.ptr, false)
        → LinkedInto (link_level y.ptr x.ptr side y.price b) (x ∷ front ++ y ∷ z ∷ back)
    unfolding link_level
    link_between front z back e w at =
        let (p', run, j) =
          join_between side p y x front z back before_y after_y v
            (subst (λ l. AllDistinct (ptrs (on_side side) (y ∷ x ∷ l))) e distinct)
            (subst (λ l. Ring (on_side side) p.slot (x ∷ l)) e ring) new in
        (
          p',
          rw
              (
                find_place-eq side p x xs v distinct.1 ring y.price,
                w,
                at,
                run,
                take_lead-keeps y x side (some z.ptr) (set_levels p' b) _ _ j.ring.0 w,
              )
              (ap some (sym (same_best p'))),
          j,
        )

    link_last :
        is_worse side y.price x.price ≡ true
        → place side x.ptr y.price xs ≡ (some x.ptr, true)
        → LinkedInto (link_level y.ptr x.ptr side y.price b) (x ∷ xs ++ y ∷ [])
    unfolding link_level
    link_last w at =
        let (p', run, j) = join_last side p y x xs before_y after_y v distinct ring new in
        (
          p',
          rw (find_place-eq side p x xs v distinct.1 ring y.price, w, at, run)
              (ap some (sym (same_best p'))),
          j,
        )

    link_level-eq :
        LinkedInto (link_level y.ptr x.ptr side y.price b) (insert_level side y (x ∷ xs))
    link_level-eq = elim (Bool-cases (is_worse side y.price x.price)) [
      | inl w ↦ elim (place_cases side x.ptr y xs) [
        | inl (front, z, back, e, at, is) ↦ rw (w, is) (link_between front z back e w at)
        | inr (at, is) ↦ rw (w, is) (link_last w at)
      ]
      | inr w ↦ rw w (link_first w)
    ]

  -- A level that is alone leads to itself both ways.
  link_none : LinkedInto (link_on_side none y.ptr side y.price b) (y ∷ [])
  unfolding link_on_side link_alone
  link_none =
      let e =
        modify-eq (λ n. set_prev_entry (some y.ptr) (set_next_entry (some y.ptr) n)) p y.ptr _
          new in
      (
        put p y.ptr (level_node side (some y.ptr) (some y.ptr) y),
        rw e (ap some (set_levels-set_best side (some y.ptr) _ b)),
        record {
          valid = modify-IsValid p y.ptr _ _ v new;
          ring = (update_self p.slot y.ptr _, tt);
          others = λ j h. update_ne p.slot y.ptr j _ (ne_head j y.ptr [] h);
        },
      )

  link_on_side-eq :
      (ws : List Level)
      → AllDistinct (ptrs (on_side side) (y ∷ ws))
      → Ring (on_side side) p.slot ws
      → best_of side b ≡ first_or (on_side side) none ws
      → IsNew y.price ws
      → LinkedInto
          (link_on_side (first_or (on_side side) none ws) y.ptr side y.price b)
          (insert_level side y ws)
  unfolding link_on_side
  link_on_side-eq [] distinct ring best n = link_none
  link_on_side-eq (x ∷ xs) distinct ring best n = link_level-eq x xs distinct ring best n.0

-- The book with the table entry of a new level.
abbrev pub mapped : Level → MarketOrderBook → MarketOrderBook
mapped y b = record b {
  price_orders_at_price = update b.price_orders_at_price (price_to_index y.price) (some y.ptr);
}

best_of-mapped :
    (side : Side) (y : Level) (b : MarketOrderBook) → best_of side (mapped y b) ≡ best_of side b
best_of-mapped buy y b = refl
best_of-mapped sell y b = refl
best_of-mapped no_side y b = refl

-- `addOrdersAtPrice` of a level of the pool at a price that no level of the side has returns: the
-- level stands in the circle of the side at its sorted place, the best level is the first of the
-- circle, and the table leads from the price to the level.
pub add_orders_at_price-Joined :
    (side : Side) (b : MarketOrderBook) (y : Level) (ws : List Level) (before_y after_y : Option ℕ)
    → has_side side ≡ true
    → IsValid b.orders_at_price_pool
    → b.orders_at_price_pool.slot y.ptr ≡ object (level_node side before_y after_y y)
    → AllDistinct (ptrs (on_side side) (y ∷ ws))
    → Ring (on_side side) b.orders_at_price_pool.slot ws
    → best_of side b ≡ first_or (on_side side) none ws
    → IsSorted side ws
    → IsNew y.price ws
    → (p' : MemPool MarketOrdersAtPrice) × (add_orders_at_price y.ptr b
        ≡ some (with_side side p' (insert_level side y ws) (mapped y b)))
      × Joined side b.orders_at_price_pool p' (insert_level side y ws)
      × IsSorted side (insert_level side y ws)
unfolding add_orders_at_price
add_orders_at_price-Joined side b y ws before_y after_y sided v new distinct ring best sorted n =
    let (p', run, j) =
      link_on_side-eq side (mapped y b) y before_y after_y sided v new ws distinct ring
        (best_of-mapped side y b ∙ best) n in
    (
      p',
      rw (load-eq b.orders_at_price_pool y.ptr _ new, best) run,
      j,
      insert_level-IsSorted side y ws sided n sorted,
    )
