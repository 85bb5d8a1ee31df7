-- ===== src/BookCore/Start.antt =====
-- exchange/matcher/book_core.cc: the constructor makes a valid book.
use yquant_system.Base.{ℕ, ◌<◌, ◌≡◌, Bool, true, false, none, some, [], arith, refl}
use yquant_system.Types.{buy, sell, max_order_ids}
use yquant_system.MemPool
use yquant_system.MemPool.Inv.{create-Inv, create_has_room}
use yquant_system.PriceBand.{PriceBand, is_valid}
use yquant_system.PriceLevels
use yquant_system.PriceLevels.{OrderNode, new_side}
use yquant_system.PriceLevels.Inv.{no_orders, new_side-SideInv, SideInv, Identity}
use yquant_system.BookCore.{BookCore, at_side, create}
use yquant_system.BookCore.Inv.{BookInv, BookQueues, Resting, side_of_book}

abbrev pub no_queues : BookQueues
no_queues k = no_orders

-- The book that the constructor returns.
abbrev pub new_book : Bool → ℕ → PriceBand → BookCore
new_book debug symbol_id band = record {
  symbol_id = symbol_id;
  band = band;
  client_responses = [];
  market_updates = [];
  order_pool = MemPool.create debug max_order_ids;
  bids = new_side buy;
  asks = new_side sell;
  orders = λ _. none;
  next_market_order_id = 1;
}

sides :
    (debug : Bool) (symbol_id : ℕ) (band : PriceBand) (k : Bool)
    → (at_side k (new_book debug symbol_id band)).side ≡ side_of_book k
sides debug symbol_id band true = refl
sides debug symbol_id band false = refl

invs :
    (debug : Bool) (symbol_id : ℕ) (band : PriceBand) (k : Bool)
    → SideInv
        (new_book debug symbol_id band).order_pool.slot
        (at_side k (new_book debug symbol_id band))
        (no_queues k)
invs debug symbol_id band true =
    new_side-SideInv (new_book debug symbol_id band).order_pool.slot buy
invs debug symbol_id band false =
    new_side-SideInv (new_book debug symbol_id band).order_pool.slot sell

no_identity : {A : Type 0} (d : Identity) → none ≡ some d → A
no_identity d e = cc

no_entry : {A : Type 0} (j : ℕ) → none ≡ some j → A
no_entry j e = cc

pub new_book-BookInv :
    (debug : Bool) (symbol_id : ℕ) (band : PriceBand)
    → BookInv (new_book debug symbol_id band) no_queues
unfolding MemPool.create
new_book-BookInv debug symbol_id band = record {
  pool = ([], create-Inv debug max_order_ids);
  capacity = refl;
  side = sides debug symbol_id band;
  side_inv = invs debug symbol_id band;
  located = λ j d e. no_identity d e;
  bounded = λ j d e. no_identity d e;
  indexed = λ c oid j e. no_entry j e;
}

pub no_queues-Resting : Resting no_queues
no_queues-Resting k t = tt

-- On a valid band the constructor of the book returns a valid book with no resting order, with
-- room in its pool, and with nothing sent.
pub create-BookInv :
    (debug : Bool) (symbol_id : ℕ) (band : PriceBand)
    → is_valid band ≡ true
    → (b : BookCore) × (create debug symbol_id band ≡ some b)
      × BookInv b no_queues
      × Resting no_queues
      × (b.order_pool.in_use < b.order_pool.capacity)
      × (b.client_responses ≡ [])
      × (b.market_updates ≡ [])
unfolding create PriceLevels.create
create-BookInv debug symbol_id band h = (
  new_book debug symbol_id band,
  rw h,
  new_book-BookInv debug symbol_id band,
  no_queues-Resting,
  create_has_room OrderNode debug max_order_ids (omega arith),
  refl,
  refl,
)
