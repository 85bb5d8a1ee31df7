-- ===== src/Framing.antt =====
-- The loop that the receive callbacks of exchange/order_manager/order_manager.h,
-- trading/order_gw/order_gateway.cpp and trading/market_data/market_data_consumer.cpp share: it
-- hands every whole message in the buffer to a handler and keeps the bytes that are left.
--
-- The received bytes stand as a list. `handle` gets the bytes of one message, which it decodes. The
-- fuel is the number of bytes, and a message has at least one.
pub mod Stream
pub mod Frames
pub mod Tests
use yquant_system.Base.{
  ℕ, zero, suc, Option, none, some, List, [], ◌∷◌, leb, if◌then◌else◌, ◌>>=◌, length, take, drop,
}

module _ {B S : Type 0} (size : ℕ) (handle : List B → S → Option S) where
  unfoldable pub recv_loop : ℕ → List B → S → Option (S × List B)
  recv_loop zero bytes s = some (s, bytes)
  recv_loop (suc fuel) bytes s =
      if leb size (length bytes)
      then (do s' ← handle (take size bytes) s; recv_loop fuel (drop size bytes) s')
      else some (s, bytes)

  -- The callback skips the loop when the buffer has no whole message.
  unfoldable pub recv_messages : List B → S → Option (S × List B)
  recv_messages bytes s =
      if leb size (length bytes) then recv_loop (length bytes) bytes s else some (s, bytes)
