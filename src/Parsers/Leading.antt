-- ===== src/Parsers/Leading.antt =====
-- src/parsers.rs: the first byte of a 7z integer, and the mask that walks down its bits.
use r7z.Prelude.{
  ℕ, ◌-◌, ◌%◌, ◌^◌, ◌≤◌, ◌<◌, ◌≡◌, refl, sym, ap, ◌∙◌, Bool, true, false, not, ◌||◌, ◌&&◌, arith,
  ltb, leb, leb→le, ◌==◌, if◌then◌else◌, bit_and,
}
use r7z.Prelude.Bits.{all_below, all_below_sound}

-- How many bits of a byte are set above its first clear bit.
unfoldable pub leading_ones : ℕ → ℕ
leading_ones b =
    if ltb b 0b1000_0000
    then 0
    else if ltb b 0b1100_0000
    then 1
    else if ltb b 0b1110_0000
    then 2
    else if ltb b 0b1111_0000
    then 3
    else if ltb b 0b1111_1000
    then 4
    else if ltb b 0b1111_1100
    then 5
    else if ltb b 0b1111_1110
    then 6
    else if ltb b 0b1111_1111
    then 7
    else 8

-- The bits of a byte below its first clear bit.
unfoldable pub low_bits : ℕ → ℕ
unfolding leading_ones
low_bits b = b % 2 ^ (7 - leading_ones b)

-- What one round tests and reads, at the bit `k` of a byte.
round_holds : ℕ → ℕ → Bool
round_holds k b =
    ltb (leading_ones b) (7 - k)
    || (if leading_ones b == 7 - k
        then bit_and b (2 ^ k) == 0 && (bit_and b (2 ^ k - 1) == b % 2 ^ k)
        else not (bit_and b (2 ^ k) == 0))

rounds_hold : all_below 8 (λ k. all_below 256 (λ b. round_holds k b)) ≡ true
unfolding all_below round_holds leading_ones
rounds_hold = refl

pub at_most_8 : (b : ℕ) → leading_ones b ≤ 8
unfolding leading_ones
at_most_8 b = ground arith

round_of : (k b : ℕ) → k < 8 → b < 256 → round_holds k b ≡ true
round_of k b hk hb =
    all_below_sound 256 (λ b. round_holds k b) b
      (all_below_sound 8 (λ k. all_below 256 (λ b. round_holds k b)) k rounds_hold hk) hb

low_bits_at : (k b : ℕ) → k < 8 → leading_ones b ≡ 7 - k → low_bits b ≡ b % 2 ^ k
unfolding low_bits
low_bits_at k b hk e = ap (λ c. b % 2 ^ (7 - c)) e ∙ ap (λ c. b % 2 ^ c) (omega arith)

pub low_bits_none : (b : ℕ) → leading_ones b ≡ 8 → low_bits b ≡ 0
unfolding low_bits
low_bits_none b e = ap (λ c. b % 2 ^ (7 - c)) e ∙ omega arith

pub low_bits_small : (b : ℕ) → b < 256 → low_bits b < 256
unfolding all_below low_bits leading_ones
low_bits_small b h =
    omega (arith, leb→le _ _ (all_below_sound 256 (λ b. leb (low_bits b) b) b refl h))

-- The bit that ends the count is clear, and the bits below it are read.
pub last_round :
    (k b : ℕ)
    → k < 8
    → b < 256
    → leading_ones b ≡ 7 - k
    → ((bit_and b (2 ^ k) == 0) ≡ true) × (bit_and b (2 ^ k - 1) ≡ low_bits b)
unfolding round_holds
last_round k b hk hb e =
    let clear : ((bit_and b (2 ^ k) == 0) ≡ true) × (bit_and b (2 ^ k - 1) ≡ b % 2 ^ k) =
      ground (arith, round_of k b hk hb) in
    (clear.0, clear.1 ∙ sym (low_bits_at k b hk e))

-- A bit above it is set.
pub set_round :
    (k b : ℕ) → k < 8 → b < 256 → 7 - k < leading_ones b → (bit_and b (2 ^ k) == 0) ≡ false
unfolding round_holds
set_round k b hk hb e = ground (arith, round_of k b hk hb)
