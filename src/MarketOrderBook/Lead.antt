-- ===== src/MarketOrderBook/Lead.antt =====
-- trading/strategy/market_order_book.h: the best level of a side after a level joined its circle.
use yquant_system.Base.{
  ℕ, ◌≡◌, ◌≢◌, true, false, ◌&&◌, ◌||◌, List, [], ◌∷◌, arith, refl, inl, inr, Bool-cases, ap, some,
  Option, ◌∙◌, has, sym, ◌==◌, ==→eq, ne→==,
}
use yquant_system.Base.Int.{ℤ, ltb_ℤ}
use yquant_system.Types.{Side, buy, sell, no_side, is_buy, is_sell}
use yquant_system.MemPool.{MemPool, object}
use yquant_system.MemPool.Free.{load-eq, modify-eq, modify-IsValid}
use yquant_system.MarketOrderBook.{
  MarketOrdersAtPrice, MarketOrderBook, is_worse, take_lead, best_of, set_best, set_levels,
  set_next_entry, same_pointer,
}
use yquant_system.MarketOrderBook.Links.{ptrs, first_or, Seg-frame}
use yquant_system.MarketOrderBook.Levels.{Level, on_side}
use yquant_system.MarketOrderBook.Circle.{put, level_node}
use yquant_system.MarketOrderBook.Join.{Joined, ne_head}

pub put_same :
    (p : MemPool MarketOrdersAtPrice) (i : ℕ) (n : MarketOrdersAtPrice)
    → p.slot i ≡ object n
    → (j : ℕ) → (put p i n).slot j ≡ p.slot j
put_same p i n e j = elim (Bool-cases (j == i)) [
  | inl f ↦ rw f (sym e ∙ ap p.slot (sym (==→eq j i f)))
  | inr f ↦ rw f refl
]

-- A write of what is there already.
pub Joined-put :
    (side : Side) (p p' : MemPool MarketOrdersAtPrice) (ws : List Level) (i : ℕ)
    (n : MarketOrdersAtPrice)
    → p'.slot i ≡ object n
    → Joined side p p' ws
    → Joined side p (put p' i n) ws
Joined-put side p p' ws i n e h = record {
  valid = modify-IsValid p' i n n h.valid e;
  ring =
      Seg-frame (on_side side) p'.slot (put p' i n).slot _ _ ws (λ j m. put_same p' i n e j) h.ring;
  others = λ j m. put_same p' i n e j ∙ h.others j m;
}

pub set_best-same :
    (side : Side) (q : Option ℕ) (b : MarketOrderBook) → best_of side b ≡ q → set_best side q b ≡ b
set_best-same buy q b e = ap (λ r. record b { bids_by_price = r }) (sym e)
set_best-same sell q b e = ap (λ r. record b { asks_by_price = r }) (sym e)
set_best-same no_side q b e = ap (λ r. record b { asks_by_price = r }) (sym e)

-- Whether the best level is passed is the opposite of the order.
pub leads :
    (side : Side) (a b : ℤ)
    → is_worse side b a ≡ true
    → ((is_buy side && ltb_ℤ b a) || (is_sell side && ltb_ℤ a b)) ≡ true
leads buy a b h = ground arith
leads sell a b h = ground arith
leads no_side a b h = absurd (cc)

pub follows :
    (side : Side) (a b : ℤ)
    → is_worse side a b ≡ true
    → ((is_buy side && ltb_ℤ b a) || (is_sell side && ltb_ℤ a b)) ≡ false
follows buy a b h = ground arith
follows sell a b h = ground arith
follows no_side a b h = absurd (cc)

pub best_of-set_levels :
    (side : Side) (p : MemPool MarketOrdersAtPrice) (b : MarketOrderBook)
    → best_of side (set_levels p b) ≡ best_of side b
best_of-set_levels buy p b = refl
best_of-set_levels sell p b = refl
best_of-set_levels no_side p b = refl

pub set_levels-set_best :
    (side : Side) (q : Option ℕ) (p : MemPool MarketOrdersAtPrice) (b : MarketOrderBook)
    → set_levels p (set_best side q b) ≡ set_best side q (set_levels p b)
set_levels-set_best buy q p b = refl
set_levels-set_best sell q p b = refl
set_levels-set_best no_side q p b = refl

pub take_lead-keeps :
    (y x : Level) (side : Side) (target : Option ℕ) (b : MarketOrderBook) (before after : Option ℕ)
    → b.orders_at_price_pool.slot x.ptr ≡ object (level_node side before after x)
    → is_worse side y.price x.price ≡ true
    → take_lead y.ptr x.ptr side y.price target b ≡ some b
unfolding take_lead
take_lead-keeps y x side target b before after e w =
    rw (load-eq b.orders_at_price_pool x.ptr _ e, follows side y.price x.price w) refl

pub other_pointer :
    (side : Side) (y x : Level) (xs : List Level)
    → y.ptr ≢ x.ptr
    → has x.ptr (ptrs (on_side side) xs) ≡ false
    → same_pointer (first_or (on_side side) (some y.ptr) xs) (some x.ptr) ≡ false
other_pointer side y x [] ne h = ne→== y.ptr x.ptr ne
other_pointer side y x (z ∷ zs) ne h =
    ne→== z.ptr x.ptr (λ e. ne_head x.ptr z.ptr (ptrs (on_side side) zs) h (sym e))

pub take_lead-leads :
    (y x : Level) (xs : List Level) (side : Side) (b : MarketOrderBook) (before : Option ℕ)
    → b.orders_at_price_pool.slot x.ptr
      ≡ object (level_node side before (first_or (on_side side) (some y.ptr) xs) x)
    → is_worse side x.price y.price ≡ true
    → y.ptr ≢ x.ptr
    → has x.ptr (ptrs (on_side side) xs) ≡ false
    → take_lead y.ptr x.ptr side y.price (some x.ptr) b
      ≡ some (
          set_best side (some y.ptr) (
            set_levels
              (put b.orders_at_price_pool x.ptr
                (level_node side before (first_or (on_side side) (some y.ptr) xs) x))
              b))
unfolding take_lead
take_lead-leads y x xs side b before e w ne h =
    rw
      (
        load-eq b.orders_at_price_pool x.ptr _ e,
        leads side y.price x.price w,
        other_pointer side y x xs ne h,
        modify-eq (set_next_entry (first_or (on_side side) (some y.ptr) xs)) b.orders_at_price_pool
            x.ptr _ e,
      )
      refl
