-- ===== src/Sections.antt =====
-- The loops over tagged sections that end with `Property::END`, and the section that is skipped by
-- its declared size.
pub mod Fuel
pub mod Written
use r7z.Prelude.{ℕ, zero, suc, length, ok, out_of_fuel, ◌>>=◌, ok_or, if◌then◌else◌, try_usize}
use r7z.Nom.{Bytes, IResult, error, too_large}
use r7z.Packages.{Packages}
use r7z.Property
use r7z.Property.{Property, is_tag, end}
use r7z.Parsers.{sevenzip_varuint64_decode}

module _ ⦃pk : Packages⦄ where
  -- The arm `_` of the loops: a size and that many bytes.
  unfoldable pub skip_sized : Bytes → IResult (Unit {0})
  skip_sized input = do
    (rest, size) ← sevenzip_varuint64_decode input
    size ← ok_or (try_usize size) (error input too_large)
    (rest, _) ← pk.take_complete size rest
    ok (rest, tt)

  module _ {ℓ} {S : Type ℓ} (handle : Property → Bytes → S → IResult S) where
    -- `loop { let (i, tag) = Property::parse(input)?; match tag { END => break, .. } }`: each round
    -- takes the tag, so the bytes of the input are rounds enough.
    unfoldable pub sections : ℕ → Bytes → S → IResult S
    sections zero input s = out_of_fuel
    sections (suc fuel) input s = do
      (input, tag) ← Property.parse input
      if is_tag tag end
          then ok (input, s)
          else do (input, s) ← handle tag input s; sections fuel input s

    unfoldable pub read_sections : Bytes → S → IResult S
    read_sections input s = sections (suc (length input)) input s
