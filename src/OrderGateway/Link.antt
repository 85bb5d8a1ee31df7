-- ===== src/OrderGateway/Link.antt =====
-- trading/order_gw/order_gateway.cpp with exchange/order_manager/order_manager.h: over a connection that
-- keeps bytes in order, each end passes on exactly what the other end sent.
use mathlib.Core.List.{append_assoc, append-nil}
use yquant_system.Base.{
  ℕ, zero, suc, ◌+◌, ◌<◌, ◌≡◌, some, List, [], ◌∷◌, ◌++◌, refl, ◌∙◌, sym, subst, arith, run_all,
  map, update, update_self, lt→ltb, ==_self, length, length-append, eq→==, ==→eq, ==→ne, ◌==◌, ◌≢◌,
  ◌⊎◌, inl, inr, Bool-cases,
}
use yquant_system.Base.Int.{ℤ}
use yquant_system.Types.{add64, max_num_clients}
use yquant_system.Messages.{MatchingEngineClientRequest, ClientResponse}
use yquant_system.OrderServer.{
  OrderManagerClientRequest, OrderManagerClientResponse, OrderManager, TimestampedClientRequest,
  max_pending_requests, add_client_request, bind_socket, recv_request,
}
use yquant_system.OrderGateway.{OrderGateway, send_request, send_requests, recv_response}

-- The requests with their numbers from n on.
abbrev pub requests_from : ℕ → List MatchingEngineClientRequest → List OrderManagerClientRequest
requests_from n [] = []
requests_from n (r ∷ rs) =
    record { seq_num = n; matching_engine_client_request = r } ∷ requests_from (add64 n 1) rs

abbrev pub responses_from : ℕ → List ClientResponse → List OrderManagerClientResponse
responses_from n [] = []
responses_from n (r ∷ rs) =
    record { seq_num = n; matching_engine_client_response = r } ∷ responses_from (add64 n 1) rs

abbrev pub after : ℕ → ℕ → ℕ
after zero n = n
after (suc k) n = after k (add64 n 1)

-- The gateway sends every request, in order, under the next numbers.
pub record SentAll (rs : List MatchingEngineClientRequest) (g g' : OrderGateway) : Type 0 where
  pub sent : g'.sent ≡ g.sent ++ requests_from g.next_outgoing_seq_num rs
  pub next : g'.next_outgoing_seq_num ≡ after (length rs) g.next_outgoing_seq_num

send_requests-SentAll :
    (rs : List MatchingEngineClientRequest) (g : OrderGateway) → SentAll rs g (send_requests rs g)
unfolding send_request
send_requests-SentAll [] g = record { sent = sym (append-nil g.sent); next = refl }
send_requests-SentAll (r ∷ rs) g =
    let h = send_requests-SentAll rs (send_request r g) in
    record {
      sent =
          h.sent
          ∙ append_assoc g.sent
              (record { seq_num = g.next_outgoing_seq_num; matching_engine_client_request = r }
                ∷ [])
              (requests_from (add64 g.next_outgoing_seq_num 1) rs);
      next = h.next;
    }

abbrev pub AllOf : ℕ → List MatchingEngineClientRequest → Type 0
AllOf c [] = Unit {0}
AllOf c (r ∷ rs) = (r.client_id ≡ c) × AllOf c rs

-- A server that knows the client by this socket, or does not know it, and expects its next number.
abbrev pub IsOpenFor : ℕ → ℕ → ℕ → OrderManager → Type 0
IsOpenFor c socket n o =
    (bind_socket c socket o.cid_tcp_socket_map c ≡ some socket) × (o.cid_next_exp_seq_num c ≡ n)

abbrev pub HasRoom : List MatchingEngineClientRequest → OrderManager → Type 0
HasRoom rs o =
    length o.fifo_sequencer.pending_client_requests + length rs < suc max_pending_requests

abbrev pub stamp : ℤ → MatchingEngineClientRequest → TimestampedClientRequest
stamp rx r = record { receive_time = rx; request = r }

-- What the server has after one message that it takes.
abbrev taken : ℕ → ℤ → ℕ → MatchingEngineClientRequest → ℕ → OrderManager → OrderManager
taken socket rx n r c o = record o {
  cid_tcp_socket_map = bind_socket c socket o.cid_tcp_socket_map;
  cid_next_exp_seq_num = update o.cid_next_exp_seq_num c (add64 n 1);
  fifo_sequencer = record o.fifo_sequencer {
    pending_client_requests = o.fifo_sequencer.pending_client_requests ++ stamp rx r ∷ [];
  };
}

recv_request-taken :
    (socket : ℕ) (rx : ℤ) (n : ℕ) (r : MatchingEngineClientRequest) (o : OrderManager)
    → r.client_id < max_num_clients
    → IsOpenFor r.client_id socket n o
    → length o.fifo_sequencer.pending_client_requests < max_pending_requests
    → recv_request socket rx (record { seq_num = n; matching_engine_client_request = r }) o
      ≡ some (taken socket rx n r r.client_id o)
unfolding recv_request add_client_request
recv_request-taken socket rx n r o known (bound, next) room =
    rw
      (
        lt→ltb r.client_id max_num_clients known,
        bound,
        ==_self socket,
        next,
        ==_self n,
        lt→ltb (length o.fifo_sequencer.pending_client_requests) max_pending_requests room,
      )
      refl

taken-IsOpenFor :
    (socket : ℕ) (rx : ℤ) (n : ℕ) (r : MatchingEngineClientRequest) (c : ℕ) (o : OrderManager)
    → IsOpenFor c socket n o
    → IsOpenFor c socket (add64 n 1) (taken socket rx n r c o)
taken-IsOpenFor socket rx n r c o (bound, next) =
    (rw bound bound, update_self o.cid_next_exp_seq_num c (add64 n 1))

abbrev pub Arrive :
    ℕ
    → ℤ
    → List OrderManagerClientRequest
    → List MatchingEngineClientRequest
    → OrderManager
    → Type 0
Arrive socket rx messages rs o =
    (o' : OrderManager) × (run_all (recv_request socket rx) messages o ≡ some o')
    × (o'.fifo_sequencer.pending_client_requests
        ≡ o.fifo_sequencer.pending_client_requests ++ map (stamp rx) rs)

arrive :
    (socket : ℕ) (rx : ℤ) (c n : ℕ) (rs : List MatchingEngineClientRequest) (o : OrderManager)
    → c < max_num_clients
    → AllOf c rs
    → IsOpenFor c socket n o
    → HasRoom rs o
    → Arrive socket rx (requests_from n rs) rs o
arrive socket rx c n [] o known all opened room =
    (o, refl, sym (append-nil o.fifo_sequencer.pending_client_requests))
arrive socket rx c n (r ∷ rs) o known (own, all) opened room =
    let o1 = taken socket rx n r c o in
    let held = o.fifo_sequencer.pending_client_requests in
    let first =
      subst
        (λ d.
          recv_request socket rx (record { seq_num = n; matching_engine_client_request = r }) o
          ≡ some (taken socket rx n r d o))
        own
        (recv_request-taken socket rx n r o (subst (λ d. d < max_num_clients) (sym own) known)
          (subst (λ d. IsOpenFor d socket n o) (sym own) opened) (omega (arith, room))) in
    let (o', run, all_pending) =
      arrive socket rx c (add64 n 1) rs o1 known all (taken-IsOpenFor socket rx n r c o opened)
        (omega (arith, room, length-append held (stamp rx r ∷ []))) in
    (o', rw first run, all_pending ∙ append_assoc held (stamp rx r ∷ []) (map (stamp rx) rs))

-- The requests that the gateway of a known client sends are all pending at the order server
-- afterwards, in their order, when they are of that client and the server expects the gateway's
-- next number of this client, has the client on this socket or on none, and has room for them.
pub requests-Arrive :
    (socket : ℕ) (rx : ℤ) (rs : List MatchingEngineClientRequest) (g : OrderGateway)
    (o : OrderManager)
    → g.client_id < max_num_clients
    → AllOf g.client_id rs
    → IsOpenFor g.client_id socket g.next_outgoing_seq_num o
    → HasRoom rs o
    → (messages : List OrderManagerClientRequest) × ((send_requests rs g).sent ≡ g.sent ++ messages)
      × Arrive socket rx messages rs o
requests-Arrive socket rx rs g o known all opened room = (
  requests_from g.next_outgoing_seq_num rs,
  (send_requests-SentAll rs g).sent,
  arrive socket rx g.client_id g.next_outgoing_seq_num rs o known all opened room,
)

abbrev pub response_of : OrderManagerClientResponse → ClientResponse
response_of m = m.matching_engine_client_response

-- Of the messages for client `c`, from the number n on: those that are for it and have the next
-- number, and no others. The count ends at the last index.
pub data InSequence (c : ℕ)
    : ℕ → List OrderManagerClientResponse → List OrderManagerClientResponse → ℕ → Type 0 where
  end : (n : ℕ) → InSequence c n [] [] n
  next :
      (n m : ℕ) (x : OrderManagerClientResponse) (xs ys : List OrderManagerClientResponse)
      → (response_of x).client_id ≡ c
      → x.seq_num ≡ n
      → InSequence c (add64 n 1) xs ys m
      → InSequence c n (x ∷ xs) (x ∷ ys) m
  other :
      (n m : ℕ) (x : OrderManagerClientResponse) (xs ys : List OrderManagerClientResponse)
      → ((response_of x).client_id ≢ c) ⊎ (x.seq_num ≢ n)
      → InSequence c n xs ys m
      → InSequence c n (x ∷ xs) ys m

-- What was passed on of the messages: no crash, and no other field of the gateway changed.
abbrev pub PassedOn : List OrderManagerClientResponse → OrderGateway → Type 0
PassedOn ms g =
    (g' : OrderGateway) × (passed : List OrderManagerClientResponse) × (run_all recv_response ms g
      ≡ some g')
    × InSequence g.client_id g.next_exp_seq_num ms passed g'.next_exp_seq_num
    × (passed ≡ responses_from g.next_exp_seq_num (map response_of passed))
    × (g'.incoming_responses ≡ g.incoming_responses ++ map response_of passed)
    × (g'.next_outgoing_seq_num ≡ g.next_outgoing_seq_num)
    × (g'.sent ≡ g.sent)
    × (g'.client_id ≡ g.client_id)

passed_own :
    (x : OrderManagerClientResponse) (xs : List OrderManagerClientResponse) (g : OrderGateway)
    → (response_of x).client_id ≡ g.client_id
    → x.seq_num ≡ g.next_exp_seq_num
    → PassedOn xs (record g {
      next_exp_seq_num = add64 g.next_exp_seq_num 1;
      incoming_responses = g.incoming_responses ++ response_of x ∷ [];
    })
    → PassedOn (x ∷ xs) g
unfolding recv_response
passed_own x xs g own seq (g', ys, run, picked, numbers, incoming, out, sent, id) = (
  g',
  x ∷ ys,
  rw (eq→== (response_of x).client_id g.client_id own, eq→== x.seq_num g.next_exp_seq_num seq) run,
  next g.next_exp_seq_num g'.next_exp_seq_num x xs ys own seq picked,
  (λ i. record { seq_num = seq i; matching_engine_client_response = response_of x } ∷ numbers i),
  incoming ∙ append_assoc g.incoming_responses (response_of x ∷ []) (map response_of ys),
  out,
  sent,
  id,
)

passed_other :
    (x : OrderManagerClientResponse) (xs : List OrderManagerClientResponse) (g : OrderGateway)
    → recv_response x g ≡ some g
    → ((response_of x).client_id ≢ g.client_id) ⊎ (x.seq_num ≢ g.next_exp_seq_num)
    → PassedOn xs g
    → PassedOn (x ∷ xs) g
passed_other x xs g stays why (g', ys, run, picked, numbers, incoming, out, sent, id) = (
  g',
  ys,
  rw stays run,
  other g.next_exp_seq_num g'.next_exp_seq_num x xs ys why picked,
  numbers,
  incoming,
  out,
  sent,
  id,
)

-- Whatever messages arrive, the order gateway takes them without ending the process and passes on
-- to the trade engine, in their order, exactly those that are for its client and have the number
-- that it then expects; these have consecutive numbers from the one that it expected, it then
-- expects the number after the last, and what it sends is not concerned.
pub responses-arrive : (ms : List OrderManagerClientResponse) (g : OrderGateway) → PassedOn ms g
unfolding recv_response
responses-arrive [] g = (
  g,
  [],
  refl,
  end g.next_exp_seq_num,
  refl,
  sym (append-nil g.incoming_responses),
  refl,
  refl,
  refl,
)
responses-arrive (x ∷ xs) g = elim (Bool-cases ((response_of x).client_id == g.client_id)) [
  | inr foreign ↦
      passed_other x xs g (rw foreign refl)
        (inl (==→ne (response_of x).client_id g.client_id foreign)) (responses-arrive xs g)
  | inl own ↦ elim (Bool-cases (x.seq_num == g.next_exp_seq_num)) [
    | inr wrong ↦
        passed_other x xs g (rw (own, wrong) refl) (inr (==→ne x.seq_num g.next_exp_seq_num wrong))
          (responses-arrive xs g)
    | inl seq ↦
        passed_own x xs g (==→eq (response_of x).client_id g.client_id own)
          (==→eq x.seq_num g.next_exp_seq_num seq)
          (responses-arrive xs (record g {
            next_exp_seq_num = add64 g.next_exp_seq_num 1;
            incoming_responses = g.incoming_responses ++ response_of x ∷ [];
          }))
  ]
]
