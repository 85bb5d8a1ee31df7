-- ===== src/OrderServer/Respond.antt =====
-- exchange/order_manager/order_manager.h: the responses that the thread sends to the clients.
use mathlib.Core.List.{append_assoc, append-nil}
use yquant_system.Base.{
  ℕ, ◌<◌, ◌≡◌, some, List, [], ◌∷◌, ◌++◌, refl, ◌∙◌, ap, sym, map, update, lt→ltb,
}
use yquant_system.Types.{max_num_clients, add64}
use yquant_system.Messages.{ClientResponse}
use yquant_system.OrderServer.{
  OrderManagerClientResponse, OrderManager, send_response, send_responses,
}
use yquant_system.OrderServer.Numbers.{Counts, Counts-append, Counts-one, seqs_of, seqs_of-append}

abbrev pub Sent : Type 0
Sent = ℕ × OrderManagerClientResponse

abbrev pub response_of : Sent → ClientResponse
response_of p = p.1.matching_engine_client_response

abbrev pub client_sent : Sent → ℕ
client_sent p = (response_of p).client_id

abbrev pub seq_sent : Sent → ℕ
seq_sent p = p.1.seq_num

-- Every response is of a client with a socket.
abbrev pub AllBound : OrderManager → List ClientResponse → Type 0
AllBound o [] = Unit {0}
AllBound o (r ∷ rs) =
    (r.client_id < max_num_clients)
    × ((k : ℕ) × (o.cid_tcp_socket_map r.client_id ≡ some k))
    × AllBound o rs

abbrev pub OnOwnSocket : OrderManager → List Sent → Type 0
OnOwnSocket o [] = Unit {0}
OnOwnSocket o (p ∷ ps) = (o.cid_tcp_socket_map (client_sent p) ≡ some p.0) × OnOwnSocket o ps

-- The responses went out in their order, each on the socket of its client and with the next number
-- of that client.
pub record Delivered (rs : List ClientResponse) (o o' : OrderManager) (out : List Sent)
    : Type 0 where
  pub sent : o'.sent ≡ o.sent ++ out
  pub all : map response_of out ≡ rs
  pub own : OnOwnSocket o out
  pub counts :
      (c : ℕ)
      → Counts
          (o.cid_next_outgoing_seq_num c)
          (seqs_of client_sent seq_sent c out)
          (o'.cid_next_outgoing_seq_num c)
  pub sockets : o'.cid_tcp_socket_map ≡ o.cid_tcp_socket_map

abbrev pub IsDelivered : List ClientResponse → OrderManager → Type 0
IsDelivered rs o =
    (o' : OrderManager) × (out : List Sent) × (send_responses rs o ≡ some o')
    × Delivered rs o o' out

-- When every response of a turn is of a known client with a socket, all of them are sent, in their
-- order, each on the socket of its client, and the numbers on the responses of each client
-- continue the count of that client.
pub send_responses-Delivered :
    (rs : List ClientResponse) (o : OrderManager) → AllBound o rs → IsDelivered rs o
unfolding send_response
send_responses-Delivered [] o h = (
  o,
  [],
  refl,
  record {
    sent = sym (append-nil o.sent);
    all = refl;
    own = tt;
    counts = λ c. refl;
    sockets = refl;
  },
)
send_responses-Delivered (r ∷ rs) o (known, (k, bound), h) =
    let c = r.client_id in
    let p : Sent = (
      k,
      record { seq_num = o.cid_next_outgoing_seq_num c; matching_engine_client_response = r },
    ) in
    let o1 = record o {
      sent = o.sent ++ p ∷ [];
      cid_next_outgoing_seq_num =
          update o.cid_next_outgoing_seq_num c (add64 (o.cid_next_outgoing_seq_num c) 1);
    } in
    let (o', out, run, d) = send_responses-Delivered rs o1 h in
    (
      o',
      p ∷ out,
      rw (lt→ltb c max_num_clients known, bound) run,
      record {
        sent = d.sent ∙ append_assoc o.sent (p ∷ []) out;
        all = ap (λ l. r ∷ l) d.all;
        own = (bound, d.own);
        counts = λ n. rw (seqs_of-append client_sent seq_sent n (p ∷ []) out) (
            Counts-append (o.cid_next_outgoing_seq_num n) (seqs_of client_sent seq_sent n (p ∷ []))
              (seqs_of client_sent seq_sent n out) (o1.cid_next_outgoing_seq_num n)
              (o'.cid_next_outgoing_seq_num n)
              (Counts-one client_sent seq_sent o.cid_next_outgoing_seq_num p n refl) (d.counts n));
        sockets = d.sockets;
      },
    )
