-- ===== src/UnpackInfo.antt =====
-- src/pack_info.rs: the folders and their sizes (`UnpackInfo`), read with
-- `UnpackInfo::parse_with_external` and walked with `scan_unpack_info_with_external`.
pub mod Source
use r7z.Prelude.{
  ℕ, zero, suc, ◌+◌, ◌-◌, ◌<◌, ◌^◌, Bool, Option, none, some, List, [], ◌∷◌, ◌++◌, length,
  get_elem?, take, drop, Result, ok, err, ◌>>=◌, ◌>>◌, ok_or, map_err, if◌then◌else◌, leb, ltb,
  ◌||◌, try_usize, checked_add,
}
use r7z.Nom.{Bytes, IResult, ParseError, ErrorKind, error, failure, incomplete, eof, too_large}
use r7z.Nom.Repeat.{repeat, skip_repeat}
use r7z.Packages.{Packages}
use r7z.Parsers.{sevenzip_varuint64_decode, scan_digests}
use r7z.Property.{Property, crc, coders_unpack_size}
use r7z.Sections.{skip_sized, read_sections}
use r7z.Slice.{Slice, bytes_subslice}
use r7z.Digests.{parse_digests}
use r7z.PackInfo.{fill_digests}
use r7z.Folder
use r7z.Folder.{Folder, scan_folder}
use Source.{
  FolderLocation, FolderSource, parse_folder_declaration, resolve, source_bytes, remaining_header,
  backing_of, source_slice,
}

pub record UnpackInfo : Type 0 where
  pub num_folders : ℕ
  pub folder_data : Bytes
  pub folder_offsets : List ℕ
  pub unpack_sizes : List ℕ
  pub digests : List (Option ℕ)

-- `u32::try_from`
abbrev pub try_u32 : ℕ → Option ℕ
try_u32 n = if ltb n (2 ^ 32) then some n else none

-- What the scan of the folder blocks keeps of an error.
unfoldable pub error_code : ParseError → ErrorKind
error_code (error _ code) = code
error_code (failure _ code) = code
error_code incomplete = eof

module _ ⦃pk : Packages⦄ where
  -- The loop of `scan_folder_blocks` with a table of offsets: `folders` is what is left of `data`,
  -- and `total` the output streams so far. The result is what is left, the total and the offsets.
  unfoldable pub scan_blocks : Bytes → ℕ → ℕ → Bytes → Result ErrorKind (Bytes × ℕ × List ℕ)
  scan_blocks all zero total folders = do
    last ← ok_or (try_u32 (length all - length folders)) too_large
    ok (folders, total, last ∷ [])
  scan_blocks all (suc count) total folders = do
    offset ← ok_or (try_u32 (length all - length folders)) too_large
    (remaining, outs) ← map_err error_code (scan_folder folders)
    total ← ok_or (checked_add total outs) too_large
    (rest, total, offsets) ← scan_blocks all count total remaining
    ok (rest, total, offset ∷ offsets)

  -- The same loop with no table.
  unfoldable pub walk_blocks : ℕ → ℕ → Bytes → Result ErrorKind (Bytes × ℕ)
  walk_blocks zero total folders = ok (folders, total)
  walk_blocks (suc count) total folders = do
    (remaining, outs) ← map_err error_code (scan_folder folders)
    total ← ok_or (checked_add total outs) too_large
    walk_blocks count total remaining

  -- `scan_folder_blocks(data, count, Some(offsets))`: the bytes consumed, the output streams and
  -- the offsets.
  unfoldable pub scan_folder_blocks : Bytes → ℕ → Result ErrorKind (ℕ × ℕ × List ℕ)
  scan_folder_blocks all count = do
    (rest, total, offsets) ← scan_blocks all count 0 all
    ok (length all - length rest, total, offsets)

  -- `scan_folder_blocks(data, count, None)`
  unfoldable pub walk_folder_blocks : Bytes → ℕ → Result ErrorKind (ℕ × ℕ)
  walk_folder_blocks all count = do
    (rest, total) ← walk_blocks count 0 all
    ok (length all - length rest, total)

  -- The state of the section loop: the sizes and the digests.
  unfoldable pub unpack_section :
      ℕ → ℕ → Property → Bytes → List ℕ × List (Option ℕ) → IResult (List ℕ × List (Option ℕ))
  unpack_section num total coders_unpack_size input (sizes, ds) = do
    (input, more) ← repeat sevenzip_varuint64_decode total input
    ok (input, (sizes ++ more, ds))
  unpack_section num total crc input (sizes, ds) = do
    num ← ok_or (try_usize num) (error input too_large)
    (input, ds) ← parse_digests input num
    ok (input, (sizes, ds))
  unpack_section num total tag input s = do (input, _) ← skip_sized input; ok (input, s)

  -- `UnpackInfo::parse_with_external`: `start` is the input with its address.
  unfoldable pub parse_with_external : Slice → Slice → List Bytes → IResult UnpackInfo
  parse_with_external start backing external_data = do
    (input, (num, location)) ← parse_folder_declaration start.bytes
    (input, source) ← resolve input location external_data
    (consumed, total, offsets) ←
        map_err (failure input) (scan_folder_blocks (source_bytes source) num)
    shared ←
        bytes_subslice (backing_of source backing) (source_slice source start input consumed) input
    input ← remaining_header source input consumed
    (input, (sizes, ds)) ← read_sections (unpack_section num total) input ([], [])
    ok (
      input,
      record {
        num_folders = num;
        folder_data = shared;
        folder_offsets = offsets;
        unpack_sizes = sizes;
        digests = fill_digests (length offsets - 1) ds;
      },
    )

  -- `UnpackInfo::parse`
  unfoldable pub parse : Slice → Slice → IResult UnpackInfo
  parse start backing = parse_with_external start backing []

  unfoldable pub scan_unpack_section : ℕ → ℕ → Property → Bytes → Unit {0} → IResult (Unit {0})
  scan_unpack_section nf total coders_unpack_size input s =
      skip_repeat sevenzip_varuint64_decode total input
  scan_unpack_section nf total crc input s = scan_digests input nf
  scan_unpack_section nf total tag input s = skip_sized input

  unfoldable pub scan_unpack_info_with_external : Bytes → List Bytes → IResult ℕ
  scan_unpack_info_with_external input external_data = do
    (input, (num, location)) ← parse_folder_declaration input
    (input, source) ← resolve input location external_data
    (consumed, total) ← map_err (failure input) (walk_folder_blocks (source_bytes source) num)
    input ← remaining_header source input consumed
    nf ← ok_or (try_usize num) (error input too_large)
    (input, _) ← read_sections (scan_unpack_section nf total) input tt
    ok (input, nf)

-- `UnpackInfo::num_folders_usize`
unfoldable pub num_folders_usize : UnpackInfo → ℕ
num_folders_usize info = length info.folder_offsets - 1
