-- ===== src/Framing/Tests.antt =====
-- The receive loop on messages of two bytes.
use yquant_system.Base.{ℕ, ◌+◌, ◌≡◌, Option, some, List, [], ◌∷◌, ◌++◌, ◌>>=◌, arith}
use yquant_system.Framing.{recv_messages}
use yquant_system.Framing.Stream.{recv_messages-append}

-- Counts the messages.
abbrev count : List ℕ → ℕ → Option ℕ
count frame n = some (n + 1)

recv_messages-append_example : recv_messages 2 count ((1 ∷ 2 ∷ 3 ∷ []) ++ 4 ∷ 5 ∷ []) 0 ≡ (
    recv_messages 2 count (1 ∷ 2 ∷ 3 ∷ []) 0 >>= λ p. recv_messages 2 count (p.1 ++ 4 ∷ 5 ∷ []) p.0)
recv_messages-append_example =
    recv_messages-append 2 count (omega arith) (1 ∷ 2 ∷ 3 ∷ []) (4 ∷ 5 ∷ []) 0
