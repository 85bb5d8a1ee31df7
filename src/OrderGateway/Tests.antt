-- ===== src/OrderGateway/Tests.antt =====
-- trading/order_gw/order_gateway.cpp: the theorems on the first messages of a connection.
use yquant_system.Base.{ℕ, ◌≡◌, some, List, [], ◌∷◌, ◌++◌, refl, arith, run_all, length}
use yquant_system.Base.Int.{pos}
use yquant_system.Types.{buy}
use yquant_system.Messages.{
  ClientRequestType, MatchingEngineClientRequest, ClientResponse, ClientResponseType,
}
use yquant_system.OrderServer
use yquant_system.OrderServer.{OrderManager, OrderManagerClientRequest, OrderManagerClientResponse}
use yquant_system.OrderGateway.{OrderGateway, create, send_requests, recv_response}
use yquant_system.OrderGateway.Link.{Arrive, IsOpenFor, requests-Arrive, responses-arrive, PassedOn}

abbrev request : ℕ → MatchingEngineClientRequest
request id = record {
  type = ClientRequestType.new;
  client_id = 4;
  symbol_id = 1;
  order_id = id;
  side = buy;
  price = pos 100;
  quantity = 7;
}

abbrev response : ℕ → ClientResponse
response id = record {
  type = ClientResponseType.accepted;
  client_id = 4;
  symbol_id = 1;
  client_order_id = id;
  market_order_id = id;
  side = buy;
  price = pos 100;
  executed_quantity = 0;
  remaining_quantity = 7;
}

abbrev two_requests : List MatchingEngineClientRequest
two_requests = request 1 ∷ request 2 ∷ []

abbrev server : OrderManager
server = yquant_system.OrderServer.create

server-IsOpenFor : IsOpenFor 4 30 1 server
unfolding yquant_system.OrderServer.create
server-IsOpenFor = (refl, refl)

server_pending : length server.fifo_sequencer.pending_client_requests ≡ 0
unfolding yquant_system.OrderServer.create
server_pending = refl

requests-Arrive_example :
    (messages : List OrderManagerClientRequest) × ((send_requests two_requests (create 4)).sent
      ≡ [] ++ messages)
    × Arrive 30 (pos 9) messages two_requests server
requests-Arrive_example =
    requests-Arrive 30 (pos 9) two_requests (create 4) server (omega arith) (refl, (refl, tt))
      server-IsOpenFor (omega (arith, server_pending))

abbrev numbered : ℕ → ClientResponse → OrderManagerClientResponse
numbered n r = record { seq_num = n; matching_engine_client_response = r }

-- One response twice, one for another client, and then the next one.
abbrev messages : List OrderManagerClientResponse
messages =
    numbered 1 (response 1)
    ∷ numbered 1 (response 1)
    ∷ numbered 2 (record (response 7) { client_id = 5 })
    ∷ numbered 2 (response 2)
    ∷ []

responses-arrive_example : PassedOn messages (create 4)
responses-arrive_example = responses-arrive messages (create 4)

two_passed_on :
    (g : OrderGateway) × (run_all recv_response messages (create 4) ≡ some g)
    × (g.incoming_responses ≡ response 1 ∷ response 2 ∷ [])
unfolding recv_response create
two_passed_on = (_, refl, refl)
