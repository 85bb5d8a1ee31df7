-- ===== src/OrderServer/Sockets.antt =====
-- exchange/order_manager/order_manager.h: the socket of a client, which its first message binds.
use mathlib.Core.Option.{none-ne-some}
use yquant_system.Base.{
  ℕ, ◌≡◌, ◌≢◌, ==_self, inl, inr, Option, none, some, true, false, ◌==◌, arith, refl, ◌∙◌, ap, sym,
  Bool-cases, Option-cases, ==→eq,
}
use yquant_system.OrderServer.{bind_socket, is_socket}
use yquant_system.OrderServer.Due.{Sockets, bound_to}

pub bind_socket-stays :
    (c socket : ℕ) (sockets : ℕ → Option ℕ) (d k : ℕ)
    → sockets d ≡ some k
    → bind_socket c socket sockets d ≡ some k
bind_socket-stays c socket sockets d k h = elim (Option-cases (sockets c)) [
  | inr (a, found) ↦ rw found h
  | inl free ↦ elim (Bool-cases (d == c)) [
    | inl same ↦ absurd (none-ne-some k (sym free ∙ ap sockets (sym (==→eq d c same)) ∙ h))
    | inr differ ↦ rw (free, differ) h
  ]
]

pub is_socket→eq : (s : Option ℕ) (socket : ℕ) → is_socket s socket ≡ true → s ≡ some socket
is_socket→eq none socket h = ground arith
is_socket→eq (some k) socket h = ap some (==→eq k socket h)

pub other_socket : (s : Option ℕ) (socket : ℕ) → is_socket s socket ≡ false → s ≢ some socket
other_socket none socket h e = none-ne-some socket e
other_socket (some k) socket h e = cc (sym h ∙ ap (λ o. is_socket o socket) e ∙ ==_self socket)

pub bind_socket-bound_to :
    (c socket : ℕ) (sockets : Sockets) → bind_socket c socket sockets ≡ bound_to c socket sockets
bind_socket-bound_to c socket sockets = λ i d. same d i
  where
    same : (d : ℕ) → bind_socket c socket sockets d ≡ bound_to c socket sockets d
    same d = elim (Option-cases (sockets d)) [
      | inr (m, here) ↦ elim (Option-cases (sockets c)) [
        | inr (k, found) ↦ rw found (rw (bound_to, here) refl)
        | inl unbound ↦ elim (Bool-cases (d == c)) [
          | inl e ↦ absurd (none-ne-some m (sym unbound ∙ ap sockets (sym (==→eq d c e)) ∙ here))
          | inr e ↦ rw (unbound, e) (rw (bound_to, here) refl)
        ]
      ]
      | inl free ↦ elim (Option-cases (sockets c)) [
        | inr (k, found) ↦ elim (Bool-cases (d == c)) [
          | inl e ↦ absurd (none-ne-some k (sym free ∙ ap sockets (==→eq d c e) ∙ found))
          | inr e ↦ rw found (rw (bound_to, free, e) refl)
        ]
        | inl unbound ↦ elim (Bool-cases (d == c)) [
          | inl e ↦ rw (unbound, e) (rw (bound_to, free, e) refl)
          | inr e ↦ rw (unbound, e) (rw (bound_to, free, e) refl)
        ]
      ]
    ]
