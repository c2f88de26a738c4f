-- ===== src/FilesInfo/Seen/Laws.antt =====
-- src/files_info.rs: a property of the files is accepted once.
use r7z.Prelude.{
  ℕ, zero, suc, ◌*◌, ◌/◌, ◌%◌, ◌^◌, ◌<◌, ◌≡◌, refl, ap, ◌∙◌, Bool, true, false, Result, ok, err,
  bit_and, bit_or, if◌then◌else◌, ◌==◌, arith, not, ◌&&◌, ◌||◌, List, [], ◌∷◌, ◌>>=◌, out_of_fuel,
  Bool-cases, inl, inr,
}
use native.Mathlib.Nat.{pow-suc}
use native.Mathlib.Decide.{ℕ_discrete}
use r7z.Prelude.Bits.{bit_and_step, bit_or_step, zero-bit_or, bit_and-le}
use r7z.Nom.{Bytes, ParseError, error, verify}
use r7z.Property.{Property}
use r7z.Property.Codes.{to_u8}
use r7z.FilesInfo.Seen.{is_masked, property_mask, register}

-- Bit `k` of a mask.
abbrev pub bit : ℕ → ℕ → ℕ
bit zero m = m % 2
bit (suc k) m = bit k (m / 2)

bit_or-zero_fuel : (n m : ℕ) → m < n → bit_or m 0 ≡ m
bit_or-zero_fuel zero m h = absurd (omega arith)
bit_or-zero_fuel (suc n) zero h = omega (arith, zero-bit_or 0)
bit_or-zero_fuel (suc n) (suc m) h =
    omega (arith, bit_or_step (suc m) 0, bit_or-zero_fuel n (suc m / 2) (omega arith))

bit_or-zero : (m : ℕ) → bit_or m 0 ≡ m
bit_or-zero m = bit_or-zero_fuel (suc m) m (omega arith)

half_power : (k : ℕ) → 2 ^ suc k / 2 ≡ 2 ^ k
half_power k = omega (arith, pow-suc 2 k)

bit_or_half : (k m : ℕ) → bit_or m (2 ^ suc k) / 2 ≡ bit_or (m / 2) (2 ^ k)
bit_or_half k m =
    omega (arith, pow-suc 2 k, bit_or_step m (2 ^ suc k), ap (bit_or (m / 2)) (half_power k))

bit_or_parity : (k m : ℕ) → bit_or m (2 ^ suc k) % 2 ≡ m % 2
bit_or_parity k m = omega (arith, pow-suc 2 k, bit_or_step m (2 ^ suc k))

bit_or_odd : (m : ℕ) → (bit_or m 1 % 2 ≡ 1) × (bit_or m 1 / 2 ≡ m / 2)
bit_or_odd m = (omega (arith, bit_or_step m 1), omega (arith, bit_or_step m 1, bit_or-zero (m / 2)))

bit_and_power : (k m : ℕ) → bit_and m (2 ^ k) ≡ bit k m * 2 ^ k
bit_and_power zero m = omega (arith, bit_and_step m 1, bit_and-le (m / 2) 0)
bit_and_power (suc k) m = grind (
  arith,
  pow-suc 2 k,
  bit_and_step m (2 ^ suc k),
  ap (bit_and (m / 2)) (half_power k),
  bit_and_power k (m / 2),
)

pub bit-bit_or : (k j m : ℕ) → bit j (bit_or m (2 ^ k)) ≡ (if k == j then 1 else bit j m)
bit-bit_or zero zero m = (bit_or_odd m).0
bit-bit_or zero (suc j) m =
    let differ : (0 == suc j) ≡ false = ground arith in rw differ (ap (bit j) (bit_or_odd m).1)
bit-bit_or (suc k) zero m =
    let differ : (suc k == 0) ≡ false = ground arith in rw differ (bit_or_parity k m)
bit-bit_or (suc k) (suc j) m =
    let same : (suc k == suc j) ≡ (k == j) = ground arith in
    rw same (ap (bit j) (bit_or_half k m) ∙ bit-bit_or k j (m / 2))

power_positive : (k : ℕ) → 0 < 2 ^ k
power_positive zero = omega arith
power_positive (suc k) = omega (arith, pow-suc 2 k, power_positive k)

bit_le : (k m : ℕ) → bit k m < 2
bit_le zero m = omega arith
bit_le (suc k) m = bit_le k (m / 2)

-- A mask has no bit in common with a power of two exactly when that bit is not set.
power_test : (k m : ℕ) → (bit_and m (2 ^ k) == 0) ≡ (bit k m == 0)
power_test k m =
    let bound = bit_le k m in
    elim (ℕ_discrete (bit k m) 0) [
      | yes e ↦ ground (arith, bit_and_power k m, e)
      | no ne ↦
          let one : bit k m ≡ 1 = omega arith in
          ground (arith, bit_and_power k m, one, power_positive k)
    ]

-- A run of properties, registered one after another.
unfoldable pub register_all : ℕ → List Property → Bytes → Result ParseError ℕ
register_all seen [] input = ok seen
register_all seen (tag ∷ tags) input = do
  seen ← register seen tag input
  register_all seen tags input

abbrev pub is_ok : Result ParseError ℕ → Bool
is_ok (ok _) = true
is_ok (err _) = false
is_ok out_of_fuel = false

-- Whether a property with a mask occurs under a code, and whether one occurs twice.
abbrev pub occurs : ℕ → List Property → Bool
occurs code [] = false
occurs code (tag ∷ tags) = (is_masked tag && (code == to_u8 tag)) || occurs code tags

abbrev pub no_repeat : List Property → Bool
no_repeat [] = true
no_repeat (tag ∷ tags) = not (is_masked tag && occurs (to_u8 tag) tags) && no_repeat tags

abbrev unseen : ℕ → List Property → Bool
unseen seen [] = true
unseen seen (tag ∷ tags) = (not (is_masked tag) || (bit (to_u8 tag) seen == 0)) && unseen seen tags

unseen-bit_or :
    (k seen : ℕ) (tags : List Property)
    → unseen (bit_or seen (2 ^ k)) tags ≡ (unseen seen tags && not (occurs k tags))
unseen-bit_or k seen [] = refl
unseen-bit_or k seen (tag ∷ tags) =
    ground (arith, bit-bit_or k (to_u8 tag) seen, unseen-bit_or k seen tags)

split : (a b c : Bool) → (a && (b && not c)) ≡ ((not c && a) && b)
split a b c = ground arith

never : (a : Bool) → false ≡ (a && false)
never a = ground arith

register_plain :
    (seen : ℕ) (tag : Property) (input : Bytes)
    → is_masked tag ≡ false
    → register seen tag input ≡ ok seen
unfolding register property_mask
register_plain seen tag input h = rw h refl

pub register_masked :
    (seen : ℕ) (tag : Property) (input : Bytes)
    → is_masked tag ≡ true
    → register seen tag input ≡ (
        if bit (to_u8 tag) seen == 0
        then ok (bit_or seen (2 ^ to_u8 tag))
        else err (error input verify))
unfolding register property_mask
register_masked seen tag input h = rw (h, power_test (to_u8 tag) seen) refl

is_ok-register_all :
    (seen : ℕ) (tags : List Property) (input : Bytes)
    → is_ok (register_all seen tags input) ≡ (no_repeat tags && unseen seen tags)
unfolding register_all
is_ok-register_all seen [] input = refl
is_ok-register_all seen (tag ∷ tags) input = elim (Bool-cases (is_masked tag)) [
  | inl masked ↦ elim (Bool-cases (bit (to_u8 tag) seen == 0)) [
    | inl fresh ↦
        rw (register_masked seen tag input masked, masked, fresh)
          (is_ok-register_all (bit_or seen (2 ^ to_u8 tag)) tags input
            ∙ rw (unseen-bit_or (to_u8 tag) seen tags)
                (split (no_repeat tags) (unseen seen tags) (occurs (to_u8 tag) tags)))
    | inr again ↦ rw (register_masked seen tag input masked, masked, again) (never _)
  ]
  | inr plain ↦ rw (register_plain seen tag input plain, plain) (is_ok-register_all seen tags input)
]

pub bit_of_zero : (k : ℕ) → bit k 0 ≡ 0
bit_of_zero zero = refl
bit_of_zero (suc k) = bit_of_zero k

unseen_at_start : (tags : List Property) → unseen 0 tags ≡ true
unseen_at_start [] = refl
unseen_at_start (tag ∷ tags) = ground (arith, bit_of_zero (to_u8 tag), unseen_at_start tags)

-- A run of properties is registered, from the empty mask on, exactly when no name, time, position,
-- attribute or empty-stream property occurs in it twice.
pub register_all-no_repeat :
    (tags : List Property) (input : Bytes) → is_ok (register_all 0 tags input) ≡ no_repeat tags
register_all-no_repeat tags input =
    ground (arith, is_ok-register_all 0 tags input, unseen_at_start tags)
