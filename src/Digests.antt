-- ===== src/Digests.antt =====
-- src/pack_info.rs and src/stream_info.rs: the CRC32 digests of a list of streams, read with
-- `parse_digests` and `parse_stream_digests`. `scan_digests` of src/parsers.rs walks over them.
pub mod Scan
pub mod RoundTrip
use r7z.Prelude.{
  ℕ, zero, suc, ◌+◌, Bool, not, ◌||◌, Option, none, some, List, [], ◌∷◌, length, ok, err, ◌>>=◌,
  ok_or, if◌then◌else◌, ◌==◌, ltb, checked_mul, div_ceil_8,
}
use r7z.Nom.{Bytes, IResult, error, eof, too_large}
use r7z.Packages.{Packages}
use r7z.Parsers.{bitmap_is_set, count_set}

-- `all_defined != 0 || bitmap_is_set(bitmap, i)`
abbrev pub is_defined : ℕ → Bytes → ℕ → Bool
is_defined all_defined bitmap i = not (all_defined == 0) || bitmap_is_set bitmap i

module _ ⦃pk : Packages⦄ where
  -- `(bitmap, input)`: a bitmap stands in the input if not all digests are defined.
  unfoldable pub parse_bitmap : ℕ → ℕ → Bytes → IResult Bytes
  parse_bitmap all_defined num input =
      if all_defined == 0 then pk.take_complete (div_ceil_8 num) input else ok (input, [])

  -- The fold over `from .. from + num`: a CRC for each index that is defined.
  unfoldable pub read_crcs : ℕ → Bytes → ℕ → ℕ → Bytes → IResult (List (Option ℕ))
  read_crcs all_defined bitmap from zero input = ok (input, [])
  read_crcs all_defined bitmap from (suc num) input =
      let defined = do
        (input, crc) ← pk.le_u32 input
        (input, crcs) ← read_crcs all_defined bitmap (from + 1) num input
        ok (input, some crc ∷ crcs)
      in let absent = do
        (input, crcs) ← read_crcs all_defined bitmap (from + 1) num input
        ok (input, none ∷ crcs)
        in if is_defined all_defined bitmap from then defined else absent

  -- `parse_digests` of src/pack_info.rs
  unfoldable pub parse_digests : Bytes → ℕ → IResult (List (Option ℕ))
  parse_digests input num = do
    (input, all_defined) ← pk.le_u8 input
    (input, bitmap) ← parse_bitmap all_defined num input
    read_crcs all_defined bitmap 0 num input

  abbrev pub num_defined : ℕ → Bytes → ℕ → ℕ
  num_defined all_defined bitmap num =
      if not (all_defined == 0) then num else count_set bitmap 0 num

  -- `parse_stream_digests` of src/stream_info.rs: the length is checked before the table is made.
  unfoldable pub parse_stream_digests : Bytes → ℕ → IResult (List (Option ℕ))
  parse_stream_digests input num = do
    (input, all_defined) ← pk.le_u8 input
    (input, bitmap) ← parse_bitmap all_defined num input
    crc_bytes ← ok_or (checked_mul (num_defined all_defined bitmap num) 4) (error input too_large)
    if ltb (length input) crc_bytes
        then err (error input eof)
        else read_crcs all_defined bitmap 0 num input
