-- ===== src/Common/Bits.antt =====
-- Bitwise operations at variables: one equation for the lowest digit, and what follows for a
-- single bit and for a disjoint `|`.
use Prim.Native.Nat.{
  ℕ, zero, suc, ◌+◌, ◌*◌, ◌/◌, ◌%◌, ◌^◌, ◌≤◌, ◌<◌, min, max, bit_and, bit_or, digits,
  bit_and-bitwise, bit_or-bitwise,
}
use mathlib.Core.Path.{◌≡◌, refl, sym, ap, ◌∙◌}
use native.Mathlib.Nat.{
  pow-suc, div-add-mod, mod-lt, mod-eq_of_lt, mul-add-mod_self_left, mul_comm, div-div-eq-div-mul,
  one-le-pow,
}
use native.Mathlib.Omega.{arith}

-- Enough fuel for the digits of `a` is as good as any other.
module _ (above : ℕ → ℕ) (digit : ℕ → ℕ → ℕ) where
  fuel_free :
      (a b small large : ℕ)
      → a ≤ small
      → a ≤ large
      → digits above digit large a b ≡ digits above digit small a b
  fuel_free zero b zero zero enough plenty = refl
  fuel_free zero b (suc small) zero enough plenty = refl
  fuel_free zero b zero (suc large) enough plenty = refl
  fuel_free zero b (suc small) (suc large) enough plenty = refl
  fuel_free (suc a) b zero large enough plenty = absurd (omega arith)
  fuel_free (suc a) b (suc small) zero enough plenty = absurd (omega arith)
  fuel_free (suc a) b (suc small) (suc large) enough plenty =
      let rest = fuel_free (suc a / 2) (b / 2) small large (omega arith) (omega arith) in
      omega (arith, rest)

  halved_fuel :
      (a b : ℕ)
      → digits above digit a (suc a / 2) (b / 2)
        ≡ digits above digit (suc a / 2) (suc a / 2) (b / 2)
  halved_fuel a b = fuel_free (suc a / 2) (b / 2) (suc a / 2) a (omega arith) (omega arith)

pub bit_or_step : (x y : ℕ) → bit_or x y ≡ bit_or (x / 2) (y / 2) * 2 + max (x % 2) (y % 2)
bit_or_step zero y =
    let whole = bit_or-bitwise 0 y in omega (arith, whole, bit_or-bitwise 0 (y / 2))
bit_or_step (suc x) y =
    let fuel = halved_fuel (λ t. t) max x y in
    omega (arith, fuel, bit_or-bitwise (suc x / 2) (y / 2), bit_or-bitwise (suc x) y)

pub bit_and_step : (x y : ℕ) → bit_and x y ≡ bit_and (x / 2) (y / 2) * 2 + min (x % 2) (y % 2)
bit_and_step zero y =
    let whole = bit_and-bitwise 0 y in omega (arith, whole, bit_and-bitwise 0 (y / 2))
bit_and_step (suc x) y =
    let fuel = halved_fuel (λ t. 0) min x y in
    omega (arith, fuel, bit_and-bitwise (suc x / 2) (y / 2), bit_and-bitwise (suc x) y)

-- Zero on the right, by halving.
right_zero_below : (bound x : ℕ) → x ≤ bound → (bit_or x 0 ≡ x) × (bit_and x 0 ≡ 0)
right_zero_below bound zero below = (refl, refl)
right_zero_below zero (suc x) below = absurd (omega arith)
right_zero_below (suc bound) (suc x) below =
    let half = right_zero_below bound (suc x / 2) (omega arith) in
    (omega (arith, half.0, bit_or_step (suc x) 0), omega (arith, half.1, bit_and_step (suc x) 0))

pub bit_and-zero : (x : ℕ) → bit_and x 0 ≡ 0
bit_and-zero x = (right_zero_below x x (omega arith)).1

bit_or-zero : (x : ℕ) → bit_or x 0 ≡ x
bit_or-zero x = (right_zero_below x x (omega arith)).0

pub zero-bit_or : (b : ℕ) → bit_or 0 b ≡ b
zero-bit_or b = bit_or-bitwise 0 b

mod-mul_two : (a p : ℕ) → 0 < p → a % (p * 2) ≡ a / 2 % p * 2 + a % 2
mod-mul_two a p pos =
    let low : ℕ = a / 2 % p * 2 + a % 2 in
    let parts : a ≡ p * 2 * (a / 2 / p) + low = omega (arith, div-add-mod (a / 2) p) in
    let small : low < p * 2 = omega (arith, mod-lt (a / 2) pos) in
    ap (λ t. t % (p * 2)) parts ∙ mul-add-mod_self_left (p * 2) (a / 2 / p) low ∙ mod-eq_of_lt small

two_pow_pos : (k : ℕ) → 0 < 2 ^ k
two_pow_pos k = one-le-pow k 2 (omega arith)

-- `a & 2^k` is the digit of weight `2^k`.
pub bit_and_single : (k a : ℕ) → bit_and a (2 ^ k) ≡ a / 2 ^ k % 2 * 2 ^ k
bit_and_single zero a = omega (arith, bit_and_step a 1, bit_and-zero (a / 2))
bit_and_single (suc k) a = rw (pow-suc 2 k) (
    bit_and_step a (2 ^ k * 2)
    ∙ rw (halved (2 ^ k), mul_comm (2 ^ k) 2, ← div-div-eq-div-mul a 2 (2 ^ k))
        (omega (arith, bit_and_single k (a / 2), ap (λ t. t * (a / 2 / 2 ^ k % 2)) (pow-suc 2 k))))
  where
    halved : (p : ℕ) → p * 2 / 2 ≡ p
    halved p = omega arith

-- `a & (2^k - 1)` keeps the low `k` digits.
pub bit_and_mask : (k a m : ℕ) → m + 1 ≡ 2 ^ k → bit_and a m ≡ a % 2 ^ k
bit_and_mask zero a zero e = omega (arith, bit_and-zero a)
bit_and_mask zero a (suc m) e = absurd (omega arith)
bit_and_mask (suc k) a m e = omega (
  arith,
  bit_and_step a m,
  pow-suc 2 k,
  two_pow_pos k,
  ap (λ t. a % t) (pow-suc 2 k),
  mod-mul_two a (2 ^ k) (two_pow_pos k),
  bit_and_mask k (a / 2) (m / 2) (omega (arith, pow-suc 2 k, two_pow_pos k)),
)

-- `(a << k) | b` with `b` below `2^k` is a sum.
pub bit_or_fields : (k a b : ℕ) → b < 2 ^ k → bit_or (a * 2 ^ k) b ≡ a * 2 ^ k + b
bit_or_fields zero a zero h = omega (arith, bit_or-zero (a * 1))
bit_or_fields zero a (suc b) h = absurd (omega arith)
bit_or_fields (suc k) a b h =
    let shift : a * 2 ^ suc k ≡ a * 2 ^ k * 2 = omega (arith, ap (λ t. a * t) (pow-suc 2 k)) in
    let halved : a * 2 ^ suc k / 2 ≡ a * 2 ^ k = omega arith in
    omega (
      arith,
      bit_or_step (a * 2 ^ suc k) b,
      ap (λ t. bit_or t (b / 2)) halved,
      bit_or_fields k a (b / 2) (omega (arith, pow-suc 2 k)),
    )

bit_or_comm_fuel : (n a b : ℕ) → a ≤ n → b ≤ n → bit_or a b ≡ bit_or b a
bit_or_comm_fuel n zero b h k = zero-bit_or b ∙ sym (bit_or-zero b)
bit_or_comm_fuel zero (suc a) b h k = absurd (omega arith)
bit_or_comm_fuel (suc n) (suc a) b h k = omega (
  arith,
  bit_or_step (suc a) b,
  bit_or_step b (suc a),
  bit_or_comm_fuel n (suc a / 2) (b / 2) (omega arith) (omega arith),
)

pub bit_or_comm : (a b : ℕ) → bit_or a b ≡ bit_or b a
bit_or_comm a b = bit_or_comm_fuel (max a b) a b (omega arith) (omega arith)
