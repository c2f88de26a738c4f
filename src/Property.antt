-- ===== src/Property.antt =====
-- src/property.rs: reading a property tag off the input.
pub mod Codes
pub mod Laws
pub use Codes.*
use r7z.Prelude.{
  ℕ, Option, none, some, [], ◌∷◌, length, drop, Result, ok, err, ◌>>=◌, ok_or, if◌then◌else◌, leb,
}
use r7z.Nom.{Bytes, IResult, ParseError, error, eof, satisfy}
use r7z.Packages.{Packages}

module _ ⦃pk : Packages⦄ where
  pub from_u8 : ℕ → Option Property
  from_u8 value = pk.property_from_u8 value

  -- `split_first` on the whole input; both errors carry the input itself.
  unfoldable pub parse : Bytes → IResult Property
  unfolding from_u8
  parse [] = err (error [] eof)
  parse (b ∷ rest) = do p ← ok_or (from_u8 b) (error (b ∷ rest) satisfy); ok (rest, p)

  at_offset : Bytes → ℕ → Result ParseError Bytes
  at_offset input offset =
      if leb offset (length input) then ok (drop offset input) else err (error input eof)

  unfoldable pub find_next_property_id : Bytes → ℕ → IResult Property
  unfolding at_offset parse
  find_next_property_id input offset = do rest ← at_offset input offset; parse rest
