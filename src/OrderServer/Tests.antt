-- ===== src/OrderServer/Tests.antt =====
-- exchange/order_manager/order_manager.h: the theorems on the first turn of a server.
--
-- A message of the tests is two bytes, the client and its sequence number.
use mathlib.Core.List.{Perm}
use mathlib.Core.List.Perm
use yquant_system.Base.{
  ℕ, zero, suc, ◌≡◌, true, false, Option, none, some, List, [], ◌∷◌, refl, arith, Bool-cases, inl,
  inr, if◌then◌else◌,
}
use yquant_system.Base.Int.{ℤ, pos, ◌≤ℤ◌, leb_ℤ}
use yquant_system.Types.{buy}
use yquant_system.Messages.{
  ClientRequestType, MatchingEngineClientRequest, ClientResponse, ClientResponseType,
}
use yquant_system.Framing.{recv_messages, recv_loop}
use yquant_system.OrderServer.{
  OrderManagerClientRequest, TimestampedClientRequest, OrderManager, create, recv_request,
  add_client_request, recv_callback, recv_finished_callback, sequence_and_publish, turn,
}
use yquant_system.OrderServer.Batch.{InTimeOrder, IsSort, Published, turn-Published}
use yquant_system.OrderServer.Respond.{IsDelivered, send_responses-Delivered}

abbrev insert :
    TimestampedClientRequest → List TimestampedClientRequest → List TimestampedClientRequest
insert x [] = x ∷ []
insert x (y ∷ ys) = if leb_ℤ x.receive_time y.receive_time then x ∷ y ∷ ys else y ∷ insert x ys

abbrev insertion_sort : List TimestampedClientRequest → List TimestampedClientRequest
insertion_sort [] = []
insertion_sort (x ∷ xs) = insert x (insertion_sort xs)

insert-Perm :
    (x : TimestampedClientRequest) (xs : List TimestampedClientRequest)
    → Perm (insert x xs) (x ∷ xs)
insert-Perm x [] = Perm.refl (x ∷ [])
insert-Perm x (y ∷ ys) = elim (Bool-cases (leb_ℤ x.receive_time y.receive_time)) [
  | inl t ↦ rw t (Perm.refl (x ∷ y ∷ ys))
  | inr f ↦ rw f (Perm.trans (Perm.cons y (insert-Perm x ys)) (Perm.swap x y ys))
]

le_of : (a b : ℤ) → leb_ℤ a b ≡ true → a ≤ℤ b
le_of a b h = ground arith

ge_of : (a b : ℤ) → leb_ℤ a b ≡ false → b ≤ℤ a
ge_of a b h = ground arith

insert-InTimeOrder :
    (x : TimestampedClientRequest) (xs : List TimestampedClientRequest)
    → InTimeOrder xs
    → InTimeOrder (insert x xs)
insert-InTimeOrder x [] s = tt
insert-InTimeOrder x (y ∷ []) s = elim (Bool-cases (leb_ℤ x.receive_time y.receive_time)) [
  | inl t ↦ rw t (le_of x.receive_time y.receive_time t, tt)
  | inr f ↦ rw f (ge_of x.receive_time y.receive_time f, tt)
]
insert-InTimeOrder x (y ∷ z ∷ zs) (yz, s) =
    let rest = insert-InTimeOrder x (z ∷ zs) s in
    elim (Bool-cases (leb_ℤ x.receive_time y.receive_time)) [
      | inl t ↦ rw t (le_of x.receive_time y.receive_time t, (yz, s))
      | inr f ↦ elim (Bool-cases (leb_ℤ x.receive_time z.receive_time)) [
        | inl t ↦ rw (f, t) (ge_of x.receive_time y.receive_time f, rw t at rest)
        | inr g ↦ rw (f, g) (yz, rw g at rest)
      ]
    ]

sorted : (xs : List TimestampedClientRequest) → InTimeOrder (insertion_sort xs)
sorted [] = tt
sorted (x ∷ xs) = insert-InTimeOrder x (insertion_sort xs) (sorted xs)

same_entries : (xs : List TimestampedClientRequest) → Perm (insertion_sort xs) xs
same_entries [] = Perm.refl []
same_entries (x ∷ xs) =
    Perm.trans (insert-Perm x (insertion_sort xs)) (Perm.cons x (same_entries xs))

insertion_sort-IsSort : IsSort insertion_sort
insertion_sort-IsSort = record { same_entries = same_entries; in_time_order = sorted }

abbrev request : ℕ → MatchingEngineClientRequest
request client = record {
  type = ClientRequestType.new;
  client_id = client;
  symbol_id = 1;
  order_id = 5;
  side = buy;
  price = pos 100;
  quantity = 7;
}

abbrev byte : ℕ → List ℕ → ℕ
byte n [] = 0
byte zero (x ∷ xs) = x
byte (suc n) (x ∷ xs) = byte n xs

abbrev decode : List ℕ → OrderManagerClientRequest
decode bytes = record {
  seq_num = byte 1 bytes;
  matching_engine_client_request = request (byte 0 bytes);
}

-- Client 4 on socket 30 sends two messages and half of a third; client 6 on socket 31 a message
-- out of its sequence.
abbrev arrivals : List (ℕ × ℤ × List ℕ)
arrivals = (30, pos 9, 4 ∷ 1 ∷ 4 ∷ 2 ∷ 4 ∷ []) ∷ (31, pos 8, 6 ∷ 1 ∷ 6 ∷ 3 ∷ []) ∷ []

abbrev first_turn : Option OrderManager
first_turn = turn 2 decode insertion_sort arrivals create

abbrev after_turn : Option OrderManager → OrderManager
after_turn none = create
after_turn (some o) = o

abbrev served : OrderManager
served = after_turn first_turn

first_turn-served : first_turn ≡ some served
unfolding recv_request add_client_request recv_callback recv_finished_callback sequence_and_publish
    recv_messages recv_loop create
first_turn-served = refl

none_pending_yet : create.fifo_sequencer.pending_client_requests ≡ []
unfolding create
none_pending_yet = refl

turn-Published_example : Published 2 decode arrivals create served
turn-Published_example =
    turn-Published 2 decode insertion_sort (omega arith) insertion_sort-IsSort arrivals create
      served none_pending_yet first_turn-served

abbrev response : ClientResponse
response = record {
  type = ClientResponseType.accepted;
  client_id = 4;
  symbol_id = 1;
  client_order_id = 5;
  market_order_id = 1;
  side = buy;
  price = pos 100;
  executed_quantity = 0;
  remaining_quantity = 7;
}

served_socket : served.cid_tcp_socket_map 4 ≡ some 30
unfolding recv_request add_client_request recv_callback recv_finished_callback sequence_and_publish
    recv_messages recv_loop create
served_socket = refl

send_responses-Delivered_example : IsDelivered (response ∷ response ∷ []) served
send_responses-Delivered_example =
    send_responses-Delivered (response ∷ response ∷ []) served
      (omega arith, (30, served_socket), (omega arith, (30, served_socket), tt))
