-- ===== src/BookCore/Tests.antt =====
-- exchange/matcher/book_core.cc: the theorems on the order book at a book with one resting order.
use yquant_system.Base.{◌<◌, ◌≡◌, true, false, some, [], ◌∷◌, ◌++◌, arith, refl, ◌∙◌, ap}
use yquant_system.Base.Int.{pos, ◌-ℤ◌}
use yquant_system.Types.{buy, sell, max_order_ids}
use yquant_system.MemPool
use yquant_system.MemPool.Inv.{create_has_room}
use yquant_system.PriceBand.{default_band, to_tick, to_int32, residue32, div_trunc, is_valid}
use yquant_system.PriceLevels.{OrderNode}
use yquant_system.PriceLevels.Queue.{Order}
use yquant_system.PriceLevels.Add.{new_order}
use yquant_system.BookCore.{BookCore, TakerOrder, at_side, create}
use yquant_system.BookCore.Matching.{match_order}
use yquant_system.BookCore.Requests.{add, rest, cancel}
use yquant_system.BookCore.Inv.{BookInv, BookQueues, Resting, lookup}
use yquant_system.BookCore.Steps.{set_queue, set_queue-Resting}
use yquant_system.BookCore.Index.{cleared}
use yquant_system.BookCore.Lookup.{Found}
use yquant_system.BookCore.Cancel.{canceled_response, cancel_update, cancel-Found}
use yquant_system.BookCore.Level.{LevelDone, fill_level-LevelDone}
use yquant_system.BookCore.Match.{Matched, match_order-Matched}
use yquant_system.BookCore.Add.{Rested, rest-Rested, AddDone, add-AddDone}
use yquant_system.BookCore.Start.{
  new_book, no_queues, new_book-BookInv, no_queues-Resting, create-BookInv,
}

abbrev empty_book : BookCore
empty_book = new_book true 3 default_band

-- A sell order of 5 at tick 100 rests.
one_rested :
    Rested empty_book no_queues 1 10 sell 100 7 5
      (rest 1 10 sell (pos 100) (pos 100) 7 5 empty_book)
one_rested =
    rest-Rested empty_book no_queues 1 10 sell 100 (pos 100) 7 5
      (new_book-BookInv true 3 default_band)
      (create_has_room OrderNode true max_order_ids (omega arith)) (omega arith) (omega arith)
      (omega arith)

abbrev book : BookCore
book = one_rested.1

abbrev order : Order
order = new_order (at_side false empty_book) 100 1 10 7 5 one_rested.0

abbrev queues : BookQueues
queues = set_queue false 100 (order ∷ []) no_queues

book-BookInv : BookInv book queues
book-BookInv = one_rested.3

queues-Resting : Resting queues
queues-Resting =
    set_queue-Resting no_queues false 100 (order ∷ []) no_queues-Resting
      (omega arith, omega arith, tt)

none_used : empty_book.order_pool.in_use ≡ 0
unfolding MemPool.create
none_used = refl

book_has_room : book.order_pool.in_use < book.order_pool.capacity
book_has_room = omega (arith, one_rested.5, none_used, book-BookInv.capacity)

abbrev taker : TakerOrder
taker = record {
  client_id = 2;
  client_order_id = 20;
  market_order_id = 8;
  side = buy;
  limit_tick = pos 100;
  quantity = 7;
}

at_default : to_tick default_band (pos 100) ≡ pos 100
unfolding to_tick to_int32 residue32 div_trunc ◌-ℤ◌
at_default = refl

to_tick_100 : to_tick book.band (pos 100) ≡ pos 100
to_tick_100 = ap (λ n. to_tick n (pos 100)) one_rested.6 ∙ at_default

match_order-Matched_example : Matched book queues taker (match_order taker book)
match_order-Matched_example =
    match_order-Matched book queues taker book-BookInv queues-Resting (omega arith)

fill_level-LevelDone_example : LevelDone book queues taker 100 (order ∷ []) (pos 100) 8
fill_level-LevelDone_example =
    fill_level-LevelDone 8 book queues taker 100 (order ∷ []) (pos 100) book-BookInv (omega arith)
      refl (queues-Resting false 100) (omega arith) (omega arith)

add-AddDone_example :
    (b' : BookCore) × (add 2 20 buy (pos 100) 7 book ≡ some b')
    × AddDone book queues 2 20 buy 100 7 b'
add-AddDone_example =
    add-AddDone book queues 2 20 buy 100 (pos 100) 7 book-BookInv queues-Resting book_has_room
      (omega arith) (omega arith) to_tick_100 (omega arith) (omega arith)

entry : lookup book.orders 1 10 ≡ some one_rested.0
entry = ap (λ n. lookup n 1 10) one_rested.4

cancel-Found_example :
    (f : Found book queues 1 10 one_rested.0) × (b' : BookCore) × (cancel 1 10 book ≡ some b')
    × BookInv b' (set_queue f.k f.t (f.xs ++ f.ys) queues)
    × Resting (set_queue f.k f.t (f.xs ++ f.ys) queues)
    × (b'.client_responses ≡ book.client_responses ++ canceled_response book f.k f.t f.o ∷ [])
    × (b'.market_updates ≡ book.market_updates ++ cancel_update book f.k f.t f.o ∷ [])
    × (b'.orders ≡ cleared book.orders 1 10)
cancel-Found_example =
    cancel-Found book queues 1 10 one_rested.0 book-BookInv queues-Resting (omega arith)
      (omega arith) entry

band_is_valid : is_valid default_band ≡ true
unfolding is_valid div_trunc ◌-ℤ◌
band_is_valid = refl

create-BookInv_example :
    (b : BookCore) × (create true 3 default_band ≡ some b)
    × BookInv b no_queues
    × Resting no_queues
    × (b.order_pool.in_use < b.order_pool.capacity)
    × (b.client_responses ≡ [])
    × (b.market_updates ≡ [])
create-BookInv_example = create-BookInv true 3 default_band band_is_valid

-- A buyer whose limit is below the resting order.
abbrev low_taker : TakerOrder
low_taker = record taker { limit_tick = pos 50 }
