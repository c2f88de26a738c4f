-- ===== src/PackInfo.antt =====
-- src/pack_info.rs: where the packed streams lie (`PackInfo`), read with `PackInfo::parse` and
-- walked with `scan_pack_info`.
pub mod RoundTrip
use r7z.Prelude.{
  ℕ, Bool, not, Option, none, some, List, [], ◌∷◌, length, replicate, Result, ok, err, ◌>>=◌, ◌>>◌,
  ok_or, if◌then◌else◌, try_usize,
}
use r7z.Nom.{Bytes, IResult, ParseError, error, failure, too_large, satisfy}
use r7z.Nom.Repeat.{repeat, skip_repeat}
use r7z.Packages.{Packages}
use r7z.Parsers.{sevenzip_varuint64_decode, scan_digests}
use r7z.Property
use r7z.Property.{Property, is_tag, pack_info, size, crc}
use r7z.Sections.{skip_sized, read_sections}
use r7z.Digests.{parse_digests}

pub record PackInfo : Type 0 where
  pub pack_pos : ℕ
  pub num_pack_streams : ℕ
  pub pack_size : List ℕ
  pub digests : List (Option ℕ)

-- `if tag != wanted { return Err(Failure(at, Satisfy)) }`
unfoldable pub expect_tag : Bytes → Property → Property → Result ParseError (Unit {0})
expect_tag at wanted tag = if is_tag tag wanted then ok tt else err (failure at satisfy)

-- `if digests.is_empty() { digests.resize(count, None) }`
unfoldable pub fill_digests : ℕ → List (Option ℕ) → List (Option ℕ)
fill_digests count [] = replicate count none
fill_digests count (d ∷ ds) = d ∷ ds

module _ ⦃pk : Packages⦄ where
  -- The tag, the position, the number of streams and the `Size` marker.
  unfoldable pub parse_pack_start : Bytes → IResult (ℕ × ℕ)
  parse_pack_start orig_input = do
    (input, property_id) ← Property.parse orig_input
    expect_tag orig_input pack_info property_id
    (input, pos) ← sevenzip_varuint64_decode input
    (input, num) ← sevenzip_varuint64_decode input
    (input, size_marker) ← Property.parse input
    expect_tag input size size_marker
    ok (input, (pos, num))

  -- A section behind the sizes; only the last digest table is kept.
  unfoldable pub pack_section : ℕ → Property → Bytes → List (Option ℕ) → IResult (List (Option ℕ))
  pack_section num crc input ds = do
    num ← ok_or (try_usize num) (error input too_large)
    parse_digests input num
  pack_section num tag input ds = do (input, _) ← skip_sized input; ok (input, ds)

  -- `PackInfo::parse`
  unfoldable pub parse : Bytes → IResult PackInfo
  parse input = do
    (input, (pos, num)) ← parse_pack_start input
    (input, sizes) ← repeat sevenzip_varuint64_decode num input
    (input, ds) ← read_sections (pack_section num) input []
    ok (
      input,
      record {
        pack_pos = pos;
        num_pack_streams = num;
        pack_size = sizes;
        digests = fill_digests (length sizes) ds;
      },
    )

  unfoldable pub scan_pack_section : ℕ → Property → Bytes → Unit {0} → IResult (Unit {0})
  scan_pack_section num crc input s = scan_digests input num
  scan_pack_section num tag input s = skip_sized input

  unfoldable pub scan_pack_info : Bytes → IResult (Unit {0})
  scan_pack_info input = do
    (input, (_, num)) ← parse_pack_start input
    (input, _) ← skip_repeat sevenzip_varuint64_decode num input
    num ← ok_or (try_usize num) (error input too_large)
    read_sections (scan_pack_section num) input tt
