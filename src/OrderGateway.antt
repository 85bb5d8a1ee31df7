-- ===== src/OrderGateway.antt =====
-- trading/order_gw/order_gateway.cpp and order_gateway.h: the client's end of its connection to the
-- exchange.
--
-- The queues to and from the trade engine are lists in the order in which they are read or written;
-- that to the trade engine has room, which the code waits for while it runs. `sent` records what was
-- given to the socket. The decoding of a message, a copy of its bytes, is a parameter.
pub mod Link
pub mod Tests
use yquant_system.Base.{
  ℕ, suc, Bool, true, false, not, Option, none, some, List, [], ◌∷◌, ◌++◌, ◌==◌, if◌then◌else◌,
  run_all,
}
use yquant_system.Types.{add64}
use yquant_system.Messages.{MatchingEngineClientRequest, ClientResponse}
use yquant_system.Framing.{recv_messages}
use yquant_system.OrderServer.{OrderManagerClientRequest, OrderManagerClientResponse}

pub record OrderGateway : Type 0 where
  pub client_id : ℕ
  pub next_outgoing_seq_num : ℕ
  pub next_exp_seq_num : ℕ
  pub incoming_responses : List ClientResponse
  pub sent : List OrderManagerClientRequest

abbrev pub create : ℕ → OrderGateway
create client_id = record {
  client_id = client_id;
  next_outgoing_seq_num = 1;
  next_exp_seq_num = 1;
  incoming_responses = [];
  sent = [];
}

unfoldable pub send_request : MatchingEngineClientRequest → OrderGateway → OrderGateway
send_request r g = record g {
  sent =
      g.sent
      ++ record { seq_num = g.next_outgoing_seq_num; matching_engine_client_request = r } ∷ [];
  next_outgoing_seq_num = add64 g.next_outgoing_seq_num 1;
}

-- The requests that one turn of the thread finds in its queue.
abbrev pub send_requests : List MatchingEngineClientRequest → OrderGateway → OrderGateway
send_requests [] g = g
send_requests (r ∷ rs) g = send_requests rs (send_request r g)

unfoldable pub recv_response : OrderManagerClientResponse → OrderGateway → Option OrderGateway
recv_response m g =
    if not (m.matching_engine_client_response.client_id == g.client_id)
    then some g
    else (if not (m.seq_num == g.next_exp_seq_num)
        then some g
        else some (record g {
          next_exp_seq_num = add64 g.next_exp_seq_num 1;
          incoming_responses = g.incoming_responses ++ m.matching_engine_client_response ∷ [];
        }))

-- `size` is `sizeof(OrderManagerClientResponse)`; the result has the bytes that stay.
unfoldable pub recv_callback :
    {B : Type 0}
    → ℕ
    → (List B → OrderManagerClientResponse)
    → List B
    → OrderGateway
    → Option (OrderGateway × List B)
recv_callback size decode bytes g =
    recv_messages size (λ frame. recv_response (decode frame)) bytes g
