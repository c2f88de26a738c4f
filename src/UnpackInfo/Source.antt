-- ===== src/UnpackInfo/Source.antt =====
-- src/pack_info.rs: where the folder blocks of an `UnpackInfo` stand, in the header or in external
-- data.
use r7z.Prelude.{
  ℕ, ◌+◌, ◌-◌, List, length, get_elem?, take, drop, Result, ok, err, ◌>>=◌, ◌>>◌, ok_or,
  if◌then◌else◌, ◌==◌, leb, try_usize,
}
use r7z.Nom.{Bytes, IResult, ParseError, failure, eof, verify, too_large}
use r7z.Packages.{Packages}
use r7z.Parsers.{sevenzip_varuint64_decode}
use r7z.Property
use r7z.Property.{is_tag, unpack_info, folder}
use r7z.PackInfo.{expect_tag}
use r7z.Slice.{Slice}

pub data FolderLocation : Type 0 where
  inline : FolderLocation
  external : ℕ → FolderLocation

pub data FolderSource : Type 0 where
  inline : Bytes → FolderSource
  external : Bytes → FolderSource

module _ ⦃pk : Packages⦄ where
  -- The arms of `match flag`.
  unfoldable pub parse_location : ℕ → Bytes → IResult FolderLocation
  parse_location flag input =
      let indexed = do
        (input, raw_index) ← sevenzip_varuint64_decode input
        index ← ok_or (try_usize raw_index) (failure input too_large)
        ok (input, FolderLocation.external index)
      in if flag == 0
        then ok (input, FolderLocation.inline)
        else if flag == 1
        then indexed
        else err (failure input verify)

  unfoldable pub parse_folder_declaration : Bytes → IResult (ℕ × FolderLocation)
  parse_folder_declaration original = do
    (input, tag) ← Property.parse original
    expect_tag original unpack_info tag
    (input, marker) ← Property.parse input
    expect_tag input folder marker
    (input, count) ← sevenzip_varuint64_decode input
    (input, flag) ← pk.le_u8 input
    (input, location) ← parse_location flag input
    ok (input, (count, location))

-- `FolderSource::resolve`
unfoldable pub resolve : Bytes → FolderLocation → List Bytes → IResult FolderSource
resolve input FolderLocation.inline external_data = ok (input, FolderSource.inline input)
resolve input (FolderLocation.external index) external_data = do
  found ← ok_or (get_elem? external_data index) (failure input eof)
  ok (input, FolderSource.external found)

-- `FolderSource::bytes`
unfoldable pub source_bytes : FolderSource → Bytes
source_bytes (FolderSource.inline bytes) = bytes
source_bytes (FolderSource.external bytes) = bytes

-- `FolderSource::remaining_header`: an external source leaves the header where it is.
unfoldable pub remaining_header : FolderSource → Bytes → ℕ → Result ParseError Bytes
remaining_header (FolderSource.inline _) input consumed =
    if leb consumed (length input) then ok (drop consumed input) else err (failure input eof)
remaining_header (FolderSource.external _) input consumed = ok input

-- `FolderSource::backing`. An external buffer backs itself, wherever it lies.
unfoldable pub backing_of : FolderSource → Slice → Slice
backing_of (FolderSource.inline _) backing = backing
backing_of (FolderSource.external bytes) backing = record { ptr = 0; bytes = bytes }

-- `&source.bytes()[..consumed]` with its address: `input` is a suffix of `start`.
unfoldable pub source_slice : FolderSource → Slice → Bytes → ℕ → Slice
source_slice (FolderSource.inline bytes) start input consumed = record {
  ptr = start.ptr + (length start.bytes - length input);
  bytes = take consumed bytes;
}
source_slice (FolderSource.external bytes) start input consumed = record {
  ptr = 0;
  bytes = take consumed bytes;
}
