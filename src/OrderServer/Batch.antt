-- ===== src/OrderServer/Batch.antt =====
-- exchange/order_manager/order_manager.h and FIFOSequencer.h: one turn of the server, from the bytes
-- of its sockets to the batch that the matching engine gets.
use mathlib.Core.List.{append_assoc, append-nil, map-append, Perm}
use mathlib.Core.List.Perm
use mathlib.Core.Option.{some-injective, none-ne-some}
use yquant_system.Base.{
  ℕ, ◌≡◌, ◌<◌, some, List, [], ◌∷◌, ◌++◌, refl, ◌∙◌, ap, sym, subst, map, Option-cases, inl, inr,
  run_all,
}
use yquant_system.Base.Int.{ℤ, ◌≤ℤ◌}
use yquant_system.OrderServer.{
  OrderManagerClientRequest, TimestampedClientRequest, OrderManager, requests_of,
  sequence_and_publish, recv_callback, recv_finished_callback, receive, turn,
}
use yquant_system.OrderServer.Numbers.{Counts, Counts-append, seqs_of, seqs_of-append}
use yquant_system.OrderServer.Due.{client_of, seq_of, Arrived, TurnDue, quiet, arrival}
use yquant_system.OrderServer.Receive.{stamped, recv_callback-Accepted}

abbrev pub stamp : Arrived → TimestampedClientRequest
stamp a = stamped a.0 a.1

abbrev pub client_arrived : Arrived → ℕ
client_arrived a = client_of a.1

abbrev pub seq_arrived : Arrived → ℕ
seq_arrived a = seq_of a.1

abbrev pub InTimeOrder : List TimestampedClientRequest → Type 0
InTimeOrder [] = Unit {0}
InTimeOrder (x ∷ []) = Unit {0}
InTimeOrder (x ∷ y ∷ xs) = (x.receive_time ≤ℤ y.receive_time) × InTimeOrder (y ∷ xs)

-- What std::ranges::sort promises of the batch: the same entries, by receive time. Entries of the
-- same time may stand in any order.
pub record IsSort (sort : List TimestampedClientRequest → List TimestampedClientRequest)
    : Type 0 where
  pub same_entries : (xs : List TimestampedClientRequest) → Perm (sort xs) xs
  pub in_time_order : (xs : List TimestampedClientRequest) → InTimeOrder (sort xs)

-- The messages that were taken, in the order in which they were taken.
pub record Gathered (o o' : OrderManager) (taken : List Arrived) : Type 0 where
  pub pending :
      o'.fifo_sequencer.pending_client_requests
      ≡ o.fifo_sequencer.pending_client_requests ++ map stamp taken
  pub published : o'.fifo_sequencer.incoming_request ≡ o.fifo_sequencer.incoming_request
  pub counts :
      (c : ℕ)
      → Counts
          (o.cid_next_exp_seq_num c)
          (seqs_of client_arrived seq_arrived c taken)
          (o'.cid_next_exp_seq_num c)

-- The due messages of a turn, from the sockets and the numbers of one state to those of another.
abbrev pub DueInTurn :
    {B : Type 0}
    → ℕ
    → (List B → OrderManagerClientRequest)
    → List (ℕ × ℤ × List B)
    → OrderManager
    → OrderManager
    → List Arrived
    → Type 0
DueInTurn size decode arrivals o o' taken =
    TurnDue size decode o.cid_tcp_socket_map o.cid_next_exp_seq_num arrivals taken
      o'.cid_tcp_socket_map o'.cid_next_exp_seq_num

-- The taken messages are the due ones of the turn, and the batch has these by their times.
pub record Published {B : Type 0} (size : ℕ) (decode : List B → OrderManagerClientRequest)
    (arrivals : List (ℕ × ℤ × List B)) (o o' : OrderManager) : Type 0 where
  pub taken : List Arrived
  pub are_due : DueInTurn size decode arrivals o o' taken
  pub batch : List TimestampedClientRequest
  pub forwarded :
      o'.fifo_sequencer.incoming_request ≡ o.fifo_sequencer.incoming_request ++ requests_of batch
  pub emptied : o'.fifo_sequencer.pending_client_requests ≡ []
  pub same_entries : Perm batch (map stamp taken)
  pub in_time_order : InTimeOrder batch
  pub counts :
      (c : ℕ)
      → Counts
          (o.cid_next_exp_seq_num c)
          (seqs_of client_arrived seq_arrived c taken)
          (o'.cid_next_exp_seq_num c)

module _ {B : Type 0} (size : ℕ) (decode : List B → OrderManagerClientRequest)
    (sort : List TimestampedClientRequest → List TimestampedClientRequest)
    (some_size : 0 < size) where
  seqs_of_time :
      (rx : ℤ) (c : ℕ) (rs : List OrderManagerClientRequest)
      → seqs_of client_arrived seq_arrived c (map (λ r. (rx, r)) rs) ≡ seqs_of client_of seq_of c rs
  seqs_of_time rx c [] = refl
  seqs_of_time rx c (r ∷ rs) = rw (seqs_of_time rx c rs) refl

  stamps_of_time :
      (rx : ℤ) (rs : List OrderManagerClientRequest)
      → map stamp (map (λ r. (rx, r)) rs) ≡ map (stamped rx) rs
  stamps_of_time rx [] = refl
  stamps_of_time rx (r ∷ rs) = ap (λ l. stamped rx r ∷ l) (stamps_of_time rx rs)

  receive-Gathered :
      (socket : ℕ) (rx : ℤ) (bytes : List B) (rest : List (ℕ × ℤ × List B)) (o o1 o' : OrderManager)
      (later : List Arrived)
      → receive size decode (socket, rx, bytes) o ≡ some o1
      → DueInTurn size decode rest o1 o' later
      → (taken : List Arrived) × Gathered o o1 taken
        × DueInTurn size decode ((socket, rx, bytes) ∷ rest) o o' (taken ++ later)
  receive-Gathered socket rx bytes rest o o1 o' later run all =
      elim (Option-cases (recv_callback size decode socket rx bytes o)) [
        | inl stop ↦ absurd (none-ne-some o1 (rw stop at run))
        | inr ((o2, left), go) ↦
            let (frames, ts, cut, whole, short, now, a) =
              recv_callback-Accepted size decode socket rx bytes left o o2 some_size go in
            let same = some-injective o2 o1 (rw go at run) in
            (
              map (λ r. (rx, r)) ts,
              subst (λ u. Gathered o u (map (λ r. (rx, r)) ts)) same
                  (record {
                    pending =
                        a.pending
                        ∙ ap (λ l. o.fifo_sequencer.pending_client_requests ++ l)
                            (sym (stamps_of_time rx ts));
                    published = a.published;
                    counts = λ c. rw (seqs_of_time rx c ts) (a.counts c);
                  }),
              arrival o.cid_tcp_socket_map o.cid_next_exp_seq_num socket rx bytes left frames ts
                  o2.cid_tcp_socket_map o2.cid_next_exp_seq_num rest later o'.cid_tcp_socket_map
                  o'.cid_next_exp_seq_num cut whole short now
                  (subst (λ u. DueInTurn size decode rest u o' later) (sym same) all),
            )
      ]

  Gathered-append :
      (o o1 o2 : OrderManager) (xs ys : List Arrived)
      → Gathered o o1 xs
      → Gathered o1 o2 ys
      → Gathered o o2 (xs ++ ys)
  Gathered-append o o1 o2 xs ys p q = record {
    pending =
        q.pending
        ∙ ap (λ l. l ++ map stamp ys) p.pending
        ∙ append_assoc o.fifo_sequencer.pending_client_requests (map stamp xs) (map stamp ys)
        ∙ ap (λ l. o.fifo_sequencer.pending_client_requests ++ l) (sym (map-append stamp xs ys));
    published = q.published ∙ p.published;
    counts = λ c. rw (seqs_of-append client_arrived seq_arrived c xs ys) (
        Counts-append (o.cid_next_exp_seq_num c) (seqs_of client_arrived seq_arrived c xs)
          (seqs_of client_arrived seq_arrived c ys) (o1.cid_next_exp_seq_num c)
          (o2.cid_next_exp_seq_num c) (p.counts c) (q.counts c));
  }

  gathered :
      (arrivals : List (ℕ × ℤ × List B)) (o o' : OrderManager)
      → run_all (receive size decode) arrivals o ≡ some o'
      → (taken : List Arrived) × Gathered o o' taken × DueInTurn size decode arrivals o o' taken
  gathered [] o o' run = (
    [],
    subst (λ u. Gathered o u []) (some-injective o o' run)
        (record {
          pending = sym (append-nil o.fifo_sequencer.pending_client_requests);
          published = refl;
          counts = λ c. refl;
        }),
    subst (λ u. DueInTurn size decode [] o u []) (some-injective o o' run)
        (quiet o.cid_tcp_socket_map o.cid_next_exp_seq_num),
  )
  gathered ((socket, rx, bytes) ∷ arrivals) o o' run =
      elim (Option-cases (receive size decode (socket, rx, bytes) o)) [
        | inl stop ↦ absurd (none-ne-some o' (rw stop at run))
        | inr (o1, go) ↦
            let (ys, q, all) = gathered arrivals o1 o' (rw go at run) in
            let (xs, p, now) = receive-Gathered socket rx bytes arrivals o o1 o' ys go all in
            (xs ++ ys, Gathered-append o o1 o' xs ys p q, now)
      ]

  finish-Published :
      IsSort sort
      → (arrivals : List (ℕ × ℤ × List B)) (o o1 : OrderManager) (taken : List Arrived)
      → o.fifo_sequencer.pending_client_requests ≡ []
      → Gathered o o1 taken
      → DueInTurn size decode arrivals o o1 taken
      → Published size decode arrivals o (recv_finished_callback sort o1)
  unfolding recv_finished_callback sequence_and_publish
  finish-Published s arrivals o o1 [] none_pending g d =
      let z : o1.fifo_sequencer.pending_client_requests ≡ [] =
        g.pending ∙ append-nil o.fifo_sequencer.pending_client_requests ∙ none_pending in
      record {
        taken = [];
        are_due = d;
        batch = [];
        forwarded = rw z (g.published ∙ sym (append-nil o.fifo_sequencer.incoming_request));
        emptied = rw z refl;
        same_entries = Perm.refl [];
        in_time_order = tt;
        counts = g.counts;
      }
  finish-Published s arrivals o o1 (t ∷ taken) none_pending g d =
      let z : o1.fifo_sequencer.pending_client_requests ≡ map stamp (t ∷ taken) =
        g.pending ∙ ap (λ l. l ++ map stamp (t ∷ taken)) none_pending in
      let batch = sort (map stamp (t ∷ taken)) in
      record {
        taken = t ∷ taken;
        are_due = d;
        batch = batch;
        forwarded = rw z (ap (λ l. l ++ requests_of batch) g.published);
        emptied = rw z refl;
        same_entries = s.same_entries (map stamp (t ∷ taken));
        in_time_order = s.in_time_order (map stamp (t ∷ taken));
        counts = g.counts;
      }

  -- For messages of at least one byte and a sort that returns the same entries by receive time, a
  -- turn of the order server that starts with nothing pending and does not end the process
  -- publishes one batch, by receive time, and leaves nothing pending: the batch has exactly the
  -- due ones of the messages that arrived, where the bytes of each arrival are cut into whole
  -- messages until less than a message stays, and a message is due when it comes on the socket of
  -- its client, which the first message of a client without a socket binds, with the client's next
  -- number; so those of each client continue that client's count without a gap.
  pub turn-Published :
      IsSort sort
      → (arrivals : List (ℕ × ℤ × List B)) (o o' : OrderManager)
      → o.fifo_sequencer.pending_client_requests ≡ []
      → turn size decode sort arrivals o ≡ some o'
      → Published size decode arrivals o o'
  turn-Published s [] o o' none_pending run =
      subst (Published size decode [] o) (some-injective o o' run) (record {
        taken = [];
        are_due = quiet o.cid_tcp_socket_map o.cid_next_exp_seq_num;
        batch = [];
        forwarded = sym (append-nil o.fifo_sequencer.incoming_request);
        emptied = none_pending;
        same_entries = Perm.refl [];
        in_time_order = tt;
        counts = λ c. refl;
      })
  turn-Published s (a ∷ arrivals) o o' none_pending run =
      elim (Option-cases (run_all (receive size decode) (a ∷ arrivals) o)) [
        | inl stop ↦ absurd (none-ne-some o' (rw stop at run))
        | inr (o1, go) ↦
            let (taken, g, d) = gathered (a ∷ arrivals) o o1 go in
            subst (Published size decode (a ∷ arrivals) o) (some-injective _ o' (rw go at run))
              (finish-Published s (a ∷ arrivals) o o1 taken none_pending g d)
      ]
