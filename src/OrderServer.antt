-- ===== src/OrderServer.antt =====
-- exchange/order_manager/order_manager.h, order_manager.cc and FIFOSequencer.h: the server of the
-- clients' TCP connections.
--
-- A socket is a number. The two queues to and from the matching engine are lists in the order in
-- which the other side reads or writes them. `pending` holds the first `pendingSize` entries of the array.
-- `sent` records what was given to the sockets. The decoding of a message, a cast of its bytes,
-- and `std::ranges::sort` are parameters. `none` is a run that ends in FATAL or ASSERT, or that
-- indexes a table by a client id outside it.
pub mod Numbers
pub mod Due
pub mod Sockets
pub mod Receive
pub mod Batch
pub mod Respond
pub mod Tests
use yquant_system.Base.{
  ℕ, ◌+◌, ◌*◌, ◌≡◌, Bool, false, Option, none, some, List, [], ◌∷◌, ◌++◌, ltb, ◌==◌, if◌then◌else◌,
  ◌>>=◌, assert, update, length, map, is_some, nonempty, run_all,
}
use yquant_system.Base.Int.{ℤ}
use yquant_system.Types.{max_num_clients, add64}
use yquant_system.Messages.{MatchingEngineClientRequest, ClientResponse}
use yquant_system.Framing.{recv_messages}

pub record OrderManagerClientRequest : Type 0 where
  pub seq_num : ℕ
  pub matching_engine_client_request : MatchingEngineClientRequest

pub record OrderManagerClientResponse : Type 0 where
  pub seq_num : ℕ
  pub matching_engine_client_response : ClientResponse

pub record TimestampedClientRequest : Type 0 where
  pub receive_time : ℤ
  pub request : MatchingEngineClientRequest

abbrev pub max_pending_requests : ℕ
max_pending_requests = 1024

pub record FifoSequencer : Type 0 where
  pub incoming_request : List MatchingEngineClientRequest
  pub pending_client_requests : List TimestampedClientRequest

unfoldable pub add_client_request :
    ℤ → MatchingEngineClientRequest → FifoSequencer → Option FifoSequencer
add_client_request rx request f =
    assert (ltb (length f.pending_client_requests) max_pending_requests) (
      some (record f {
        pending_client_requests =
            f.pending_client_requests ++ record { receive_time = rx; request = request } ∷ [];
      }))

abbrev pub requests_of : List TimestampedClientRequest → List MatchingEngineClientRequest
requests_of batch = map (λ (t : TimestampedClientRequest). t.request) batch

unfoldable pub sequence_and_publish :
    (List TimestampedClientRequest → List TimestampedClientRequest) → FifoSequencer → FifoSequencer
sequence_and_publish sort f =
    if nonempty f.pending_client_requests
    then record {
      incoming_request = f.incoming_request ++ requests_of (sort f.pending_client_requests);
      pending_client_requests = [];
    }
    else f

pub record OrderManager : Type 0 where
  pub cid_next_outgoing_seq_num : ℕ → ℕ
  pub cid_next_exp_seq_num : ℕ → ℕ
  pub cid_tcp_socket_map : ℕ → Option ℕ
  pub fifo_sequencer : FifoSequencer
  pub sent : List (ℕ × OrderManagerClientResponse)

unfoldable pub create : OrderManager
create = record {
  cid_next_outgoing_seq_num = λ _. 1;
  cid_next_exp_seq_num = λ _. 1;
  cid_tcp_socket_map = λ _. none;
  fifo_sequencer = record { incoming_request = []; pending_client_requests = [] };
  sent = [];
}

-- The first message of a client binds its socket.
abbrev pub bind_socket : ℕ → ℕ → (ℕ → Option ℕ) → ℕ → Option ℕ
bind_socket client_id socket sockets =
    if is_some (sockets client_id) then sockets else update sockets client_id (some socket)

abbrev pub is_socket : Option ℕ → ℕ → Bool
is_socket none socket = false
is_socket (some s) socket = s == socket

unfoldable pub recv_request : ℕ → ℤ → OrderManagerClientRequest → OrderManager → Option OrderManager
recv_request socket rx r o =
    let c = r.matching_engine_client_request.client_id in
    let o' = record o { cid_tcp_socket_map = bind_socket c socket o.cid_tcp_socket_map } in
    let next = o'.cid_next_exp_seq_num c in
    assert (ltb c max_num_clients) (
      if is_socket (o'.cid_tcp_socket_map c) socket
      then (if r.seq_num == next
          then (do
            f ← add_client_request rx r.matching_engine_client_request o'.fifo_sequencer
            some (record o' {
              cid_next_exp_seq_num = update o'.cid_next_exp_seq_num c (add64 next 1);
              fifo_sequencer = f;
            }))
          else some o')
      else some o')

-- `size` is `sizeof(OrderManagerClientRequest)`.
unfoldable pub recv_callback :
    {B : Type 0}
    → ℕ
    → (List B → OrderManagerClientRequest)
    → ℕ
    → ℤ
    → List B
    → OrderManager
    → Option (OrderManager × List B)
recv_callback size decode socket rx bytes o =
    recv_messages size (λ frame. recv_request socket rx (decode frame)) bytes o

unfoldable pub recv_finished_callback :
    (List TimestampedClientRequest → List TimestampedClientRequest) → OrderManager → OrderManager
recv_finished_callback sort o = record o {
  fifo_sequencer = sequence_and_publish sort o.fifo_sequencer;
}

unfoldable pub send_response : ClientResponse → OrderManager → Option OrderManager
send_response r o =
    let c = r.client_id in
    let seq = o.cid_next_outgoing_seq_num c in
    assert (ltb c max_num_clients) (do
      socket ← o.cid_tcp_socket_map c
      some (record o {
        sent =
            o.sent ++ (socket, record { seq_num = seq; matching_engine_client_response = r }) ∷ [];
        cid_next_outgoing_seq_num = update o.cid_next_outgoing_seq_num c (add64 seq 1);
      }))

-- The responses that one turn of the thread finds in its queue.
abbrev pub send_responses : List ClientResponse → OrderManager → Option OrderManager
send_responses rs o = run_all send_response rs o

-- common/tcp_server.cc and tcp_socket.cc: a turn of the thread's receiving half.
module _ {B : Type 0} (size : ℕ) (decode : List B → OrderManagerClientRequest) where
  -- The bytes of one socket; what it keeps of them stays in its buffer.
  abbrev pub receive : ℕ × ℤ × List B → OrderManager → Option OrderManager
  receive (socket, rx, bytes) o = recv_callback size decode socket rx bytes o >>= λ p. some p.0

  -- TCPServer::sendAndRecv calls back for each socket with bytes, and at the end once.
  abbrev pub turn :
      (List TimestampedClientRequest → List TimestampedClientRequest)
      → List (ℕ × ℤ × List B)
      → OrderManager
      → Option OrderManager
  turn sort arrivals o = run_all receive arrivals o >>= λ o'.
      some (if nonempty arrivals then recv_finished_callback sort o' else o')
