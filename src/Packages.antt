-- ===== src/Packages.antt =====
-- The packages that the parsers call and whose code is not in the repository: `nom` (the complete
-- `take`, `le_u8`, `le_u32`), `num-derive` (`FromPrimitive` for `Property`) and `arrayvec`
-- (`ArrayVec::try_from`). The parsers take them as an instance, whose laws state what the packages
-- document.
pub mod Laws
use r7z.Prelude.{
  ℕ, ◌<◌, ◌≡◌, Option, none, some, [], ◌∷◌, length, take, drop, ok, err, if◌then◌else◌, leb,
}
use r7z.Nom.{Bytes, IResult, error, eof, from_le_bytes32}
use r7z.Property.Codes.{Property, to_u8}

pub record Packages : Type 0 where
  -- `nom::bytes::complete::take`
  pub take_complete : ℕ → Bytes → IResult Bytes
  -- `nom::number::complete::le_u8` and `le_u32`
  pub le_u8 : Bytes → IResult ℕ
  pub le_u32 : Bytes → IResult ℕ
  -- `<Property as FromPrimitive>::from_u8`, which `num-derive` generates
  pub property_from_u8 : ℕ → Option Property
  -- `ArrayVec::try_from(slice)` at a capacity
  pub array_try_from : ℕ → Bytes → Option Bytes
  pub take_complete_lem :
      (n : ℕ) (input : Bytes)
      → take_complete n input
        ≡ (if leb n (length input) then ok (drop n input, take n input) else err (error input eof))
  pub le_u8-nil : le_u8 [] ≡ err (error [] eof)
  pub le_u8-cons : (b : ℕ) (rest : Bytes) → le_u8 (b ∷ rest) ≡ ok (rest, b)
  pub le_u32-short : (input : Bytes) → length input < 4 → le_u32 input ≡ err (error input eof)
  pub le_u32-cons :
      (a b c d : ℕ) (rest : Bytes)
      → le_u32 (a ∷ b ∷ c ∷ d ∷ rest) ≡ ok (rest, from_le_bytes32 a b c d)
  pub property_from_u8-to_u8 : (p : Property) → property_from_u8 (to_u8 p) ≡ some p
  pub to_u8_of_from_u8 : (b : ℕ) (p : Property) → property_from_u8 b ≡ some p → b ≡ to_u8 p
  pub array_try_from_lem :
      (cap : ℕ) (xs : Bytes)
      → array_try_from cap xs ≡ (if leb (length xs) cap then some xs else none)
