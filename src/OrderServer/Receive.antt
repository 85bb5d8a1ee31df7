-- ===== src/OrderServer/Receive.antt =====
-- exchange/order_manager/order_manager.h: what recvCallback accepts from the bytes of a socket.
use mathlib.Core.Option.{some-injective, none-ne-some}
use mathlib.Core.List.{append_assoc, append-nil, map-append}
use mathlib.Core.Bool.{false≢true}
use yquant_system.Base.{
  ℕ, ◌≡◌, ◌<◌, ==→ne, ◌⊎◌, inl, inr, some, List, [], ◌∷◌, ◌++◌, true, false, ltb, ◌==◌, arith, refl,
  ◌∙◌, ap, sym, subst, Bool-cases, Option-cases, map, nonempty, run_all, run_all-map, update, ==→eq,
  length,
}
use yquant_system.Base.Int.{ℤ}
use yquant_system.Types.{add64, max_num_clients}
use yquant_system.Framing.Frames.{join, AllOfLength, recv_messages-Handled, recv_messages-short}
use yquant_system.OrderServer.{
  OrderManagerClientRequest, TimestampedClientRequest, OrderManager, max_pending_requests,
  add_client_request, bind_socket, is_socket, recv_request, recv_callback,
}
use yquant_system.OrderServer.Due.{
  client_of, seq_of, Sockets, bound_to, IsDue, AreDue, end, due, undue, counted,
}
use yquant_system.OrderServer.Numbers.{Counts, Counts-append, Counts-one, seqs_of, seqs_of-append}
use yquant_system.OrderServer.Sockets.{
  bind_socket-stays, is_socket→eq, other_socket, bind_socket-bound_to,
}

abbrev pub stamped : ℤ → OrderManagerClientRequest → TimestampedClientRequest
stamped rx r = record { receive_time = rx; request = r.matching_engine_client_request }

-- A client that has a socket keeps it.
abbrev pub SocketsStay : OrderManager → OrderManager → Type 0
SocketsStay o o' = (c k : ℕ) → o.cid_tcp_socket_map c ≡ some k → o'.cid_tcp_socket_map c ≡ some k

-- Of the messages of one call, those of `taken` became pending; those of each client continue its
-- count, and it is bound to this socket.
pub record Accepted (socket : ℕ) (rx : ℤ) (taken : List OrderManagerClientRequest)
    (o o' : OrderManager) : Type 0 where
  pub pending :
      o'.fifo_sequencer.pending_client_requests
      ≡ o.fifo_sequencer.pending_client_requests ++ map (stamped rx) taken
  pub published : o'.fifo_sequencer.incoming_request ≡ o.fifo_sequencer.incoming_request
  pub counts :
      (c : ℕ)
      → Counts
          (o.cid_next_exp_seq_num c)
          (seqs_of client_of seq_of c taken)
          (o'.cid_next_exp_seq_num c)
  pub bound :
      (c : ℕ)
      → nonempty (seqs_of client_of seq_of c taken) ≡ true
      → o'.cid_tcp_socket_map c ≡ some socket
  pub stay : SocketsStay o o'

nonempty_right :
    (xs ys : List ℕ) → nonempty xs ≡ false → nonempty (xs ++ ys) ≡ true → nonempty ys ≡ true
nonempty_right [] ys f t = t
nonempty_right (x ∷ xs) ys f t = absurd (false≢true (sym f))

-- One message: it changed no count and nothing pending, or it is the next one of its client.
module _ (socket : ℕ) (rx : ℤ) (r : OrderManagerClientRequest) (o : OrderManager) where
  ignored :
      Accepted socket rx [] o
        (record o { cid_tcp_socket_map = bind_socket (client_of r) socket o.cid_tcp_socket_map })
  ignored = record {
    pending = sym (append-nil o.fifo_sequencer.pending_client_requests);
    published = refl;
    counts = λ c. refl;
    bound = λ c h. ground arith;
    stay = bind_socket-stays (client_of r) socket o.cid_tcp_socket_map;
  }

  after_due : OrderManager
  after_due = record o {
    cid_tcp_socket_map = bind_socket (client_of r) socket o.cid_tcp_socket_map;
    cid_next_exp_seq_num =
        update o.cid_next_exp_seq_num (client_of r)
          (add64 (o.cid_next_exp_seq_num (client_of r)) 1);
    fifo_sequencer = record o.fifo_sequencer {
      pending_client_requests = o.fifo_sequencer.pending_client_requests ++ stamped rx r ∷ [];
    };
  }

  accepted :
      bind_socket (client_of r) socket o.cid_tcp_socket_map (client_of r) ≡ some socket
      → r.seq_num ≡ o.cid_next_exp_seq_num (client_of r)
      → Accepted socket rx (r ∷ []) o after_due
  unfolding after_due
  accepted here next = record {
    pending = refl;
    published = refl;
    counts = λ d. Counts-one client_of seq_of o.cid_next_exp_seq_num r d next;
    bound = λ d some_of. bound_one d here some_of;
    stay = bind_socket-stays (client_of r) socket o.cid_tcp_socket_map;
  }
    where
      bound_one :
          (d : ℕ)
          → bind_socket (client_of r) socket o.cid_tcp_socket_map (client_of r) ≡ some socket
          → nonempty (seqs_of client_of seq_of d (r ∷ [])) ≡ true
          → bind_socket (client_of r) socket o.cid_tcp_socket_map d ≡ some socket
      bound_one d here some_of = elim (Bool-cases (client_of r == d)) [
        | inl t ↦
            subst (λ n. bind_socket (client_of r) socket o.cid_tcp_socket_map n ≡ some socket)
              (==→eq (client_of r) d t) here
        | inr f ↦ absurd (false≢true (rw f at some_of))
      ]

  -- The message was taken and counted, or it was not due.
  abbrev Took : OrderManager → Type 0
  Took o' =
      Accepted socket rx (r ∷ []) o o'
      × IsDue socket o.cid_tcp_socket_map o.cid_next_exp_seq_num r
      × (o'.cid_tcp_socket_map ≡ bound_to (client_of r) socket o.cid_tcp_socket_map)
      × (o'.cid_next_exp_seq_num ≡ counted r o.cid_next_exp_seq_num)

  abbrev Refused : OrderManager → Type 0
  Refused o' =
      Accepted socket rx [] o o'
      × ¬ IsDue socket o.cid_tcp_socket_map o.cid_next_exp_seq_num r
      × (o'.cid_tcp_socket_map ≡ bound_to (client_of r) socket o.cid_tcp_socket_map)
      × (o'.cid_next_exp_seq_num ≡ o.cid_next_exp_seq_num)

  abbrev bind : Sockets
  bind = bind_socket (client_of r) socket o.cid_tcp_socket_map

  bind-bound_to : bind ≡ bound_to (client_of r) socket o.cid_tcp_socket_map
  bind-bound_to = bind_socket-bound_to (client_of r) socket o.cid_tcp_socket_map

  refuses :
      (IsDue socket o.cid_tcp_socket_map o.cid_next_exp_seq_num r → ⊥)
      → Refused (record o { cid_tcp_socket_map = bind })
  refuses why = (ignored, why, bind-bound_to, refl)

  takes :
      is_socket (bind (client_of r)) socket ≡ true
      → (r.seq_num == o.cid_next_exp_seq_num (client_of r)) ≡ true
      → Took after_due
  unfolding after_due
  takes same next =
      let here = is_socket→eq (bind (client_of r)) socket same in
      let number = ==→eq r.seq_num (o.cid_next_exp_seq_num (client_of r)) next in
      (
        accepted here number,
        (sym (ap (λ f. f (client_of r)) bind-bound_to) ∙ here, number),
        bind-bound_to,
        refl,
      )

  recv_request-Accepted :
      (o' : OrderManager) → recv_request socket rx r o ≡ some o' → Refused o' ⊎ Took o'
  unfolding recv_request add_client_request after_due
  recv_request-Accepted o' run = elim (Bool-cases (ltb (client_of r) max_num_clients)) [
    | inr out ↦ absurd (none-ne-some o' (rw out at run))
    | inl known ↦
        let run1 = rw known at run in
        elim (Bool-cases (is_socket (bind (client_of r)) socket)) [
          | inr other ↦ inl (
              subst Refused (some-injective _ _ (rw other at run1)) (
                refuses (λ d.
                  other_socket (bind (client_of r)) socket other
                    (ap (λ f. f (client_of r)) bind-bound_to ∙ d.0))))
          | inl same ↦
              let run2 = rw same at run1 in
              elim (Bool-cases (r.seq_num == o.cid_next_exp_seq_num (client_of r))) [
                | inr wrong ↦ inl (
                    subst Refused (some-injective _ _ (rw wrong at run2)) (
                      refuses
                        (λ d. ==→ne r.seq_num (o.cid_next_exp_seq_num (client_of r)) wrong d.1)))
                | inl next ↦
                    let run3 = rw next at run2 in
                    let f = o.fifo_sequencer in
                    let room = ltb (length f.pending_client_requests) max_pending_requests in
                    elim (Bool-cases room) [
                      | inr full ↦ absurd (none-ne-some o' (rw full at run3))
                      | inl room ↦
                          inr (subst Took (some-injective _ _ (rw room at run3)) (takes same next))
                    ]
              ]
        ]
  ]

Accepted-append :
    (socket : ℕ) (rx : ℤ) (xs ys : List OrderManagerClientRequest) (o o1 o2 : OrderManager)
    → Accepted socket rx xs o o1
    → Accepted socket rx ys o1 o2
    → Accepted socket rx (xs ++ ys) o o2
Accepted-append socket rx xs ys o o1 o2 p q = record {
  pending =
      q.pending
      ∙ ap (λ l. l ++ map (stamped rx) ys) p.pending
      ∙ append_assoc o.fifo_sequencer.pending_client_requests (map (stamped rx) xs)
          (map (stamped rx) ys)
      ∙ ap (λ l. o.fifo_sequencer.pending_client_requests ++ l)
          (sym (map-append (stamped rx) xs ys));
  published = q.published ∙ p.published;
  counts = λ c. rw (seqs_of-append client_of seq_of c xs ys) (
      Counts-append (o.cid_next_exp_seq_num c) (seqs_of client_of seq_of c xs)
        (seqs_of client_of seq_of c ys) (o1.cid_next_exp_seq_num c) (o2.cid_next_exp_seq_num c)
        (p.counts c) (q.counts c));
  bound = λ c h. elim (Bool-cases (nonempty (seqs_of client_of seq_of c xs))) [
    | inl t ↦ q.stay c socket (p.bound c t)
    | inr f ↦ q.bound c (
        nonempty_right (seqs_of client_of seq_of c xs) (seqs_of client_of seq_of c ys) f
          (rw (seqs_of-append client_of seq_of c xs ys) at h))
  ];
  stay = λ c k h. q.stay c k (p.stay c k h);
}

-- The due messages of a list, from the sockets and the numbers of one state to those of another.
abbrev pub DueBetween :
    ℕ
    → OrderManager
    → OrderManager
    → List OrderManagerClientRequest
    → List OrderManagerClientRequest
    → Type 0
DueBetween socket o o' rs ts =
    AreDue socket o.cid_tcp_socket_map o.cid_next_exp_seq_num rs ts o'.cid_tcp_socket_map
      o'.cid_next_exp_seq_num

-- Of a list of messages on one socket, the due ones are taken, and no others.
run_all-Accepted :
    (socket : ℕ) (rx : ℤ) (rs : List OrderManagerClientRequest) (o o' : OrderManager)
    → run_all (recv_request socket rx) rs o ≡ some o'
    → (taken : List OrderManagerClientRequest) × DueBetween socket o o' rs taken
      × Accepted socket rx taken o o'
run_all-Accepted socket rx [] o o' run = (
  [],
  subst (λ u. DueBetween socket o u [] []) (some-injective _ _ run)
      (end o.cid_tcp_socket_map o.cid_next_exp_seq_num),
  subst (Accepted socket rx [] o) (some-injective _ _ run) (record {
    pending = sym (append-nil o.fifo_sequencer.pending_client_requests);
    published = refl;
    counts = λ c. refl;
    bound = λ c h. ground arith;
    stay = λ c k h. h;
  }),
)
run_all-Accepted socket rx (r ∷ rs) o o' run = elim (Option-cases (recv_request socket rx r o)) [
  | inl stop ↦ absurd (none-ne-some o' (rw stop at run))
  | inr (o1, go) ↦
      let (taken, all, rest) = run_all-Accepted socket rx rs o1 o' (rw go at run) in
      let from : Sockets → (ℕ → ℕ) → Type 0 =
        λ s n. AreDue socket s n rs taken o'.cid_tcp_socket_map o'.cid_next_exp_seq_num in
      elim (recv_request-Accepted socket rx r o o1 go) [
        | inl (p, why, sockets, numbers) ↦ (
          taken,
          undue o.cid_tcp_socket_map o.cid_next_exp_seq_num r rs taken o'.cid_tcp_socket_map
              o'.cid_next_exp_seq_num why
              (subst (from (bound_to (client_of r) socket o.cid_tcp_socket_map)) numbers
                (subst (λ s. from s o1.cid_next_exp_seq_num) sockets all)),
          Accepted-append socket rx [] taken o o1 o' p rest,
        )
        | inr (p, now, sockets, numbers) ↦ (
          r ∷ taken,
          due o.cid_tcp_socket_map o.cid_next_exp_seq_num r rs taken o'.cid_tcp_socket_map
              o'.cid_next_exp_seq_num now
              (subst (from (bound_to (client_of r) socket o.cid_tcp_socket_map)) numbers
                (subst (λ s. from s o1.cid_next_exp_seq_num) sockets all)),
          Accepted-append socket rx (r ∷ []) taken o o1 o' p rest,
        )
      ]
]

pub recv_callback-Accepted :
    {B : Type 0} (size : ℕ) (decode : List B → OrderManagerClientRequest) (socket : ℕ) (rx : ℤ)
    (bytes left : List B) (o o' : OrderManager)
    → 0 < size
    → recv_callback size decode socket rx bytes o ≡ some (o', left)
    → (frames : List (List B)) × (taken : List OrderManagerClientRequest) × (bytes
        ≡ join frames ++ left)
      × AllOfLength size frames
      × (length left < size)
      × DueBetween socket o o' (map decode frames) taken
      × Accepted socket rx taken o o'
unfolding recv_callback
recv_callback-Accepted size decode socket rx bytes left o o' some_size run =
    let (frames, cut, whole, all) =
      recv_messages-Handled size (λ frame. recv_request socket rx (decode frame)) bytes left o o'
        run in
    let (taken, picked, a) =
      run_all-Accepted socket rx (map decode frames) o o'
        (run_all-map decode (recv_request socket rx) frames o ∙ all) in
    (
      frames,
      taken,
      cut,
      whole,
      recv_messages-short size (λ frame. recv_request socket rx (decode frame)) bytes left o o'
          some_size run,
      picked,
      a,
    )
