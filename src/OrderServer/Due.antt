-- ===== src/OrderServer/Due.antt =====
-- exchange/order_manager/order_manager.h: which of the messages of a turn are taken, said of the
-- messages alone.
use yquant_system.Base.{
  ℕ, ◌≡◌, ◌<◌, Option, none, some, List, [], ◌∷◌, ◌++◌, ◌==◌, if◌then◌else◌, map, update, length,
}
use yquant_system.Base.Int.{ℤ}
use yquant_system.Types.{add64}
use yquant_system.Framing.Frames.{join, AllOfLength}
use yquant_system.OrderServer.{OrderManagerClientRequest}

abbrev pub client_of : OrderManagerClientRequest → ℕ
client_of r = r.matching_engine_client_request.client_id

abbrev pub seq_of : OrderManagerClientRequest → ℕ
seq_of r = r.seq_num

-- The sockets of the clients, and the number that is next for each client.
abbrev pub Sockets : Type 0
Sockets = ℕ → Option ℕ

abbrev pub Numbers : Type 0
Numbers = ℕ → ℕ

-- A client without a socket has this one from its first message on.
abbrev pub bound_to : ℕ → ℕ → Sockets → Sockets
bound_to c socket sockets d = elim (sockets d) [
  | some k ↦ some k
  | none ↦ if d == c then some socket else none
]

-- A message is due on the socket of its client, with the client's next number.
abbrev pub IsDue : ℕ → Sockets → Numbers → OrderManagerClientRequest → Type 0
IsDue socket sockets next r =
    (bound_to (client_of r) socket sockets (client_of r) ≡ some socket)
    × (seq_of r ≡ next (client_of r))

abbrev pub counted : OrderManagerClientRequest → Numbers → Numbers
counted r next = update next (client_of r) (add64 (next (client_of r)) 1)

-- Of the messages on one socket, the due ones, with the sockets and the numbers before and after.
pub data AreDue (socket : ℕ)
    : Sockets
      → Numbers
      → List OrderManagerClientRequest
      → List OrderManagerClientRequest
      → Sockets
      → Numbers
      → Type 0 where
  end : (s : Sockets) (n : Numbers) → AreDue socket s n [] [] s n
  due :
      (s : Sockets) (n : Numbers) (r : OrderManagerClientRequest)
      (rs ts : List OrderManagerClientRequest) (s' : Sockets) (n' : Numbers)
      → IsDue socket s n r
      → AreDue socket (bound_to (client_of r) socket s) (counted r n) rs ts s' n'
      → AreDue socket s n (r ∷ rs) (r ∷ ts) s' n'
  undue :
      (s : Sockets) (n : Numbers) (r : OrderManagerClientRequest)
      (rs ts : List OrderManagerClientRequest) (s' : Sockets) (n' : Numbers)
      → ¬ IsDue socket s n r
      → AreDue socket (bound_to (client_of r) socket s) n rs ts s' n'
      → AreDue socket s n (r ∷ rs) ts s' n'

-- A taken message with the time of its arrival.
abbrev pub Arrived : Type 0
Arrived = ℤ × OrderManagerClientRequest

-- The due messages of a turn: the bytes of each socket are cut into whole messages, and less than
-- a message stays.
pub data TurnDue {B : Type 0} (size : ℕ) (decode : List B → OrderManagerClientRequest)
    : Sockets → Numbers → List (ℕ × ℤ × List B) → List Arrived → Sockets → Numbers → Type 0 where
  quiet : (s : Sockets) (n : Numbers) → TurnDue size decode s n [] [] s n
  arrival :
      (s : Sockets) (n : Numbers) (socket : ℕ) (rx : ℤ) (bytes left : List B)
      (frames : List (List B)) (ts : List OrderManagerClientRequest) (s1 : Sockets) (n1 : Numbers)
      (rest : List (ℕ × ℤ × List B)) (later : List Arrived) (s' : Sockets) (n' : Numbers)
      → bytes ≡ join frames ++ left
      → AllOfLength size frames
      → length left < size
      → AreDue socket s n (map decode frames) ts s1 n1
      → TurnDue size decode s1 n1 rest later s' n'
      → TurnDue size decode s n ((socket, rx, bytes) ∷ rest) (map (λ r. (rx, r)) ts ++ later) s' n'
