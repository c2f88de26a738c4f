-- ===== src/Parsers/Weights.antt =====
-- src/parsers.rs: the bits of the first byte of a variable-length integer, as arithmetic. With `n`
-- rounds left the bits above `2 ^ n` are set, and the mask is `2 ^ (n - 1)`.
use r7z.Prelude.{
  ℕ, suc, ◌+◌, ◌-◌, ◌*◌, ◌^◌, ◌≤◌, ◌<◌, ◌≡◌, refl, Bool, true, false, bit_and, bit_or, ◌==◌, ==_iff,
  arith, not, leb, leb→le,
}
use r7z.Prelude.Bits.{all_below, all_below_sound}
use native.Mathlib.Nat.{one-le-pow}
use native.Mathlib.Numerals.{towards_suc}

-- The first byte with every bit from `2 ^ n` up set.
abbrev pub lead : ℕ → ℕ
lead n = 256 - 2 ^ n

-- A test over the pairs with `n < 8` and `v < 2 ^ n`.
holds_below : (ℕ → ℕ → Bool) → Bool
unfolding all_below
holds_below p = all_below 8 (λ n. all_below (2 ^ n) (p n))

holds_below_sound :
    (p : ℕ → ℕ → Bool) (n v : ℕ) → holds_below p ≡ true → n < 8 → v < 2 ^ n → p n v ≡ true
unfolding holds_below
holds_below_sound p n v h hn hv =
    all_below_sound (2 ^ n) (p n) v (all_below_sound 8 (λ k. all_below (2 ^ k) (p k)) n h hn) hv

pub or_value : (n v : ℕ) → n < 8 → v < 2 ^ n → bit_or (lead (suc n)) v ≡ lead (suc n) + v
unfolding holds_below
or_value n v hn hv =
    (==_iff _ _).0
      (holds_below_sound (λ n v. bit_or (lead (suc n)) v == lead (suc n) + v) n v refl hn hv)

pub clear_mask : (n v : ℕ) → n < 8 → v < 2 ^ n → (bit_and (lead (suc n) + v) (2 ^ n) == 0) ≡ true
unfolding holds_below
clear_mask n v hn hv =
    holds_below_sound (λ n v. bit_and (lead (suc n) + v) (2 ^ n) == 0) n v refl hn hv

pub low_value : (n v : ℕ) → n < 8 → v < 2 ^ n → bit_and (lead (suc n) + v) (2 ^ n - 1) ≡ v
unfolding holds_below
low_value n v hn hv =
    (==_iff _ _).0
      (holds_below_sound (λ n v. bit_and (lead (suc n) + v) (2 ^ n - 1) == v) n v refl hn hv)

pub set_mask : (n w : ℕ) → n < 8 → w < 2 ^ n → (bit_and (lead n + w) (2 ^ n) == 0) ≡ false
unfolding holds_below
set_mask n w hn hw =
    ground
      (arith, holds_below_sound (λ n w. not (bit_and (lead n + w) (2 ^ n) == 0)) n w refl hn hw)

pub or_mask : (n : ℕ) → n < 8 → bit_or (lead (suc n)) (2 ^ n) ≡ lead n
unfolding all_below
or_mask n hn =
    (==_iff _ _).0 (all_below_sound 8 (λ n. bit_or (lead (suc n)) (2 ^ n) == lead n) n refl hn)

pub two-pow-suc : (n : ℕ) → 2 ^ suc n ≡ 2 * 2 ^ n
two-pow-suc n = omega arith

pub two-pow_pos : (n : ℕ) → 0 < 2 ^ n
two-pow_pos n = omega (arith, one-le-pow n 2)

pub two-pow-le : (n : ℕ) → n < 9 → 2 ^ n ≤ 256
unfolding all_below
two-pow-le n h = leb→le _ _ (all_below_sound 9 (λ n. leb (2 ^ n) 256) n refl h)

pub pow_byte : (i : ℕ) → 2 ^ (8 * (i + 1)) ≡ 256 * 2 ^ (8 * i)
pow_byte i = let e : 8 * (i + 1) ≡ 8 * i + 8 = omega arith in rw e (simp towards_suc (omega arith))

pub byte_fits : (b i : ℕ) → b < 256 → b * 2 ^ (8 * i) + 2 ^ (8 * i) ≤ 2 ^ (8 * (i + 1))
byte_fits b i h = omega (arith, pow_byte i, mul_mono (b + 1) 256 (2 ^ (8 * i)) (omega arith))
  where
    mul_mono : (x y z : ℕ) → x ≤ y → x * z ≤ y * z
    mul_mono x y z h = grind arith
