-- ===== src/Prelude/Bits.antt =====
-- `|` of disjoint fields as a sum, at every width, and tables over small ranges.
use Prim.Native.Nat.{
  ℕ, zero, suc, ◌+◌, ◌*◌, ◌/◌, ◌%◌, ◌^◌, ◌≤◌, ◌<◌, max, min, bit_or, bit_and, digits,
  bit_or-bitwise, bit_and-bitwise,
}
use mathlib.Core.Path.{◌≡◌, refl, ap, ◌∙◌}
use mathlib.Core.Bool.{Bool, true, ◌&&◌}
use native.Mathlib.Nat.{pow-suc, le_refl}
use native.Mathlib.Omega.{arith}

-- A test at every number below a bound, for tables that are computed.
unfoldable pub all_below : ℕ → (ℕ → Bool) → Bool
all_below zero test = true
all_below (suc bound) test = all_below bound test && test bound

pub all_below_sound :
    (bound : ℕ) (test : ℕ → Bool) (i : ℕ) → all_below bound test ≡ true → i < bound → test i ≡ true
unfolding all_below
all_below_sound zero test i passed below = absurd (omega arith)
all_below_sound (suc bound) test i passed below = ground (arith, all_below_sound bound test i)

-- `digits` halves both numbers in every round; the rounds left over at 0 change nothing.
module _ (at_zero : ℕ → ℕ) (digit : ℕ → ℕ → ℕ) where
  digits-rounds :
      (k l x y : ℕ) → x ≤ k → x ≤ l → digits at_zero digit k x y ≡ digits at_zero digit l x y
  digits-rounds zero l (suc x) y hk hl = absurd (omega arith)
  digits-rounds (suc k) zero (suc x) y hk hl = absurd (omega arith)
  digits-rounds (suc k) (suc l) (suc x) y hk hl =
      rw (digits-rounds k l (suc x / 2) (y / 2) (omega arith) (omega arith))
  digits-rounds zero zero zero y hk hl = refl
  digits-rounds zero (suc l) zero y hk hl = refl
  digits-rounds (suc k) zero zero y hk hl = refl
  digits-rounds (suc k) (suc l) zero y hk hl = refl

  -- An operation that stands for `digits` works on the last digits and on the rest apart.
  last_digit :
      (op : ℕ → ℕ → ℕ)
      → ((x y : ℕ) → op x y ≡ digits at_zero digit x x y)
      → ((y : ℕ) → op 0 y ≡ op 0 (y / 2) * 2 + digit 0 (y % 2))
      → (x y : ℕ) → op x y ≡ op (x / 2) (y / 2) * 2 + digit (x % 2) (y % 2)
  last_digit op bitwise base zero y = base y
  last_digit op bitwise base (suc x) y =
      bitwise (suc x) y
      ∙ rw (bitwise (suc x / 2) (y / 2))
          (rw (digits-rounds x (suc x / 2) (suc x / 2) (y / 2) (omega arith) (le_refl _)))

pub zero-bit_or : (b : ℕ) → bit_or 0 b ≡ b
zero-bit_or b = bit_or-bitwise 0 b

pub bit_or_step :
    (low high : ℕ) → bit_or low high ≡ bit_or (low / 2) (high / 2) * 2 + max (low % 2) (high % 2)
bit_or_step =
    last_digit (λ y. y) max bit_or bit_or-bitwise
      (λ y. omega (arith, zero-bit_or y, zero-bit_or (y / 2)))

pub zero-bit_and : (b : ℕ) → bit_and 0 b ≡ 0
zero-bit_and b = bit_and-bitwise 0 b

pub bit_and_step :
    (mask y : ℕ) → bit_and mask y ≡ bit_and (mask / 2) (y / 2) * 2 + min (mask % 2) (y % 2)
bit_and_step =
    last_digit (λ y. 0) min bit_and bit_and-bitwise
      (λ y. omega (arith, zero-bit_and y, zero-bit_and (y / 2)))

-- Digit by digit, `&` is no more than its right side.
bit_and-le_fuel : (n a b : ℕ) → a ≤ n → bit_and a b ≤ b
bit_and-le_fuel zero zero b h = omega (arith, zero-bit_and b)
bit_and-le_fuel zero (suc a) b h = absurd (omega arith)
bit_and-le_fuel (suc n) zero b h = omega (arith, zero-bit_and b)
bit_and-le_fuel (suc n) (suc a) b h =
    omega (arith, bit_and_step (suc a) b, bit_and-le_fuel n (suc a / 2) (b / 2) (omega arith))

pub bit_and-le : (a b : ℕ) → bit_and a b ≤ b
bit_and-le a b = bit_and-le_fuel a a b (le_refl a)

-- `low | (high << k)` is a sum when `low` fits `k` bits.
pub bit_or_fields : (k low high : ℕ) → low < 2 ^ k → bit_or low (high * 2 ^ k) ≡ low + high * 2 ^ k
bit_or_fields zero low high h = ground (arith, zero-bit_or (high * 1))
bit_or_fields (suc k) low high h = ground (
  arith,
  bit_or_step low (high * 2 ^ suc k),
  ap (λ (t : ℕ). high * t) (pow-suc 2 k),
  pow-suc 2 k,
  bit_or_fields k (low / 2) high (omega arith),
)
