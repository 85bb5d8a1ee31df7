-- ===== src/MatchingEngine.antt =====
-- exchange/matcher/matching_engine.h and matching_engine.cc: the routing of a request to the book of
-- its symbol.
--
-- The two output queues belong to all books: a call of a book gets them as they are, and what it
-- leaves is what the next call of any book finds. `none` is a run that ends in FATAL, in an ASSERT or
-- in an access outside the table of books.
pub mod Serve
pub mod Tests
use yquant_system.Base.{ℕ, Bool, Option, none, some, List, [], ltb, ◌>>=◌, assert, update}
use yquant_system.Types.{max_symbols}
use yquant_system.Messages.{
  ClientRequestType, MatchingEngineClientRequest, ClientResponse, MarketUpdate,
}
use yquant_system.BookCore.{BookCore}
use yquant_system.BookCore.Requests.{add, cancel}

pub record MatchingEngine : Type 0 where
  pub symbol_order_book : ℕ → BookCore
  pub outgoing_responses : List ClientResponse
  pub outgoing_updates : List MarketUpdate

-- The book of a symbol with the queues as they are now, and the engine after a call of that book.
abbrev pub book_of : ℕ → MatchingEngine → BookCore
book_of symbol e = record (e.symbol_order_book symbol) {
  client_responses = e.outgoing_responses;
  market_updates = e.outgoing_updates;
}

abbrev pub with_book : ℕ → BookCore → MatchingEngine → MatchingEngine
with_book symbol b e = record {
  symbol_order_book = update e.symbol_order_book symbol b;
  outgoing_responses = b.client_responses;
  outgoing_updates = b.market_updates;
}

unfoldable pub serve : ClientRequestType → MatchingEngineClientRequest → BookCore → Option BookCore
serve ClientRequestType.new r b = add r.client_id r.order_id r.side r.price r.quantity b
serve ClientRequestType.canceled r b = cancel r.client_id r.order_id b
serve ClientRequestType.invalid r b = none
serve ClientRequestType.other r b = none

unfoldable pub process_client_request :
    MatchingEngineClientRequest → MatchingEngine → Option MatchingEngine
process_client_request r e =
    assert (ltb r.symbol_id max_symbols)
      (do b ← serve r.type r (book_of r.symbol_id e); some (with_book r.symbol_id b e))
