-- ===== src/Types.antt =====
-- common/types.h: the shared bounds and the direction of an order. Identifiers, quantities and
-- priorities are unsigned words and stand as numbers; a price is a signed word and stands as an
-- integer.
use yquant_system.Base.{ℕ, ◌*◌, ◌^◌, Bool, true, false, ◌%◌, ◌+◌, ◌-◌}

abbrev pub max_symbols : ℕ
max_symbols = 8

abbrev pub max_num_clients : ℕ
max_num_clients = 256

abbrev pub max_order_ids : ℕ
max_order_ids = 1024 * 1024

abbrev pub max_price_levels : ℕ
max_price_levels = 16 * 1024

abbrev pub max_client_updates : ℕ
max_client_updates = 256 * 1024

-- `Side{}`, the value 0 of the underlying type, stands in a message that has no side.
pub data Side : Type 0 where
  buy sell no_side : Side

abbrev pub is_buy : Side → Bool
is_buy buy = true
is_buy sell = false
is_buy no_side = false

abbrev pub is_sell : Side → Bool
is_sell sell = true
is_sell buy = false
is_sell no_side = false

-- The arithmetic of `uint64_t` and `uint32_t`.
abbrev pub u64_mod : ℕ
u64_mod = 2 ^ 64

abbrev pub u32_mod : ℕ
u32_mod = 2 ^ 32

abbrev pub add64 : ℕ → ℕ → ℕ
add64 a b = (a + b) % u64_mod

abbrev pub sub64 : ℕ → ℕ → ℕ
sub64 a b = (a + u64_mod - b % u64_mod) % u64_mod

abbrev pub sub32 : ℕ → ℕ → ℕ
sub32 a b = (a + u32_mod - b % u32_mod) % u32_mod
