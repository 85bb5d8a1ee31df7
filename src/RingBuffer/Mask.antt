-- ===== src/RingBuffer/Mask.antt =====
-- common/ringBuffer.h: `& mask_` is the remainder by the capacity, and what that remainder says of
-- indices that are close to each other.
use Prim.Native.Nat.{bit_and, digits, bit_and-bitwise}
use native.Mathlib.Nat.{
  mod-eq_of_lt, mod-lt, mod-mod_of_dvd, mul-add-mod_self_left, mod-add-div, zero-mod, two-pow-succ,
  add-mod_right, one-le-pow, mod-add-mod, mod-eq-sub-mod, add-zero,
}
use native.Mathlib.Decide.{dec_lt}
use yquant_system.Base.{
  ℕ, zero, suc, ◌+◌, ◌-◌, ◌*◌, ◌/◌, ◌%◌, ◌^◌, ◌≤◌, ◌<◌, ◌≡◌, arith, min, ◌∙◌, ap, sym,
}

mod_of_digits : (p y d : ℕ) → 0 < p → d < 2 → (y * 2 + d) % (p + p) ≡ y % p * 2 + d
mod_of_digits p y d h e =
    ap (λ n. n % (p + p)) (omega (arith, mod-add-div y p))
    ∙ mul-add-mod_self_left (p + p) (y / p) (y % p * 2 + d)
    ∙ mod-eq_of_lt (omega (arith, mod-lt y h))

half_mask : (p : ℕ) → 0 < p → (p + p - 1) / 2 ≡ p - 1
half_mask p h = omega arith

low_digit :
    (s p : ℕ) → 0 < p → s / 2 % p * 2 + min (s % 2) ((p + p - 1) % 2) ≡ s / 2 % p * 2 + s % 2
low_digit s p h = ap (λ d. s / 2 % p * 2 + d) (ground arith)

and_mask : (n k x : ℕ) → x ≤ n → digits (λ _. 0) min n x (2 ^ k - 1) ≡ x % 2 ^ k
and_mask zero k zero h = sym (zero-mod (2 ^ k))
and_mask zero k (suc x) h = absurd (omega arith)
and_mask (suc n) k zero h = sym (zero-mod (2 ^ k))
and_mask (suc n) zero (suc x) h = omega (arith, and_mask n 0 (suc x / 2) (omega arith))
and_mask (suc n) (suc k) (suc x) h =
    let p = one-le-pow k 2 (omega arith) in
    rw (two-pow-succ k, half_mask (2 ^ k) p, and_mask n k (suc x / 2) (omega arith))
      (low_digit (suc x) (2 ^ k) p
        ∙ sym (mod_of_digits (2 ^ k) (suc x / 2) (suc x % 2) p (omega arith))
        ∙ ap (λ n. n % (2 ^ k + 2 ^ k)) (omega arith))

pub bit_and_mask : (x k : ℕ) → bit_and x (2 ^ k - 1) ≡ x % 2 ^ k
bit_and_mask x k = bit_and-bitwise x (2 ^ k - 1) ∙ and_mask x k x (omega arith)

near_multiple : (c r d : ℕ) → r < c → d < c → (r + d) % c ≡ r → d ≡ 0
near_multiple c r d h k same = elim (dec_lt (r + d) c) [
  | yes l ↦ omega (arith, same, mod-eq_of_lt l)
  | no g ↦
      let over : c ≤ r + d = omega (arith, g) in
      let under : r + d - c < c = omega arith in
      omega (arith, mod-eq-sub-mod over, mod-eq_of_lt under)
]

-- Two indices less than a capacity apart that share a slot are the same.
pub close_indices : (c a b : ℕ) → a ≤ b → b < a + c → a % c ≡ b % c → a ≡ b
close_indices c a b h near same =
    let e : b ≡ a + (b - a) = omega arith in
    let m = mod-add-mod a c (b - a) in
    let z =
      near_multiple c (a % c) (b - a) (mod-lt a (omega arith)) (omega arith)
        (m ∙ ap (λ n. n % c) (sym e) ∙ sym same) in
    omega (arith, z)

-- An index one capacity ahead shares the slot.
pub capacity_ahead : (c a b : ℕ) → b ≡ a + c → b % c ≡ a % c
capacity_ahead c a b h = ap (λ n. n % c) h ∙ add-mod_right a c

power_split : (k j : ℕ) → 2 ^ (k + j) ≡ 2 ^ k * 2 ^ j
power_split k zero = rw (add-zero k) (omega arith)
power_split k (suc j) =
    let e : k + suc j ≡ suc (k + j) = omega arith in
    rw (e, two-pow-succ (k + j), two-pow-succ j, power_split k j) (omega arith)

-- The wrap of an index by a word loses nothing of its slot.
pub mod_of_word : (k j x : ℕ) → x % 2 ^ (k + j) % 2 ^ k ≡ x % 2 ^ k
mod_of_word k j x = mod-mod_of_dvd (2 ^ k) x ∣ (2 ^ j, power_split k j) ∣₁
