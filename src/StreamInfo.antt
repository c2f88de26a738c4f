-- ===== src/StreamInfo.antt =====
-- src/stream_info.rs: the descriptor that ties packed streams, folders and substreams together
-- (`StreamInfo`), its parser and its scanner.
use r7z.Prelude.{
  ℕ, zero, suc, ◌+◌, ◌-◌, Bool, true, false, Option, none, some, List, [], length, ok, out_of_fuel,
  ◌>>=◌, ok_or, try_usize, if◌then◌else◌,
}
use r7z.Nom.{Bytes, IResult, failure, too_large}
use r7z.Packages.{Packages}
use r7z.Parsers.{sevenzip_varuint64_decode}
use r7z.Property
use r7z.Property.{Property, is_tag, end, pack_info, unpack_info, sub_streams_info}
use r7z.Sections.{skip_sized}
use r7z.Slice.{Slice}
use r7z.PackInfo
use r7z.PackInfo.{PackInfo, scan_pack_info}
use r7z.UnpackInfo
use r7z.UnpackInfo.{UnpackInfo, num_folders_usize, scan_unpack_info_with_external}
use r7z.UnpackInfo.Source.{FolderLocation, parse_folder_declaration}
use r7z.SubstreamInfo
use r7z.SubstreamInfo.{SubstreamInfo, scan_substream_info}

pub record StreamInfo : Type 0 where
  pub pack : Option PackInfo
  pub unpack : Option UnpackInfo
  pub substreams : Option SubstreamInfo

abbrev pub no_info : StreamInfo
no_info = record { pack = none; unpack = none; substreams = none }

-- `unpack_info.as_ref().map_or(0, UnpackInfo::num_folders_usize)`
unfoldable pub folders_of : Option UnpackInfo → ℕ
folders_of none = 0
folders_of (some info) = num_folders_usize info

-- `matches!(location, FolderLocation::External(_))`
unfoldable pub is_external : FolderLocation → Bool
is_external FolderLocation.inline = false
is_external (FolderLocation.external _) = true

module _ ⦃pk : Packages⦄ where
  -- The arms of `match tag` but `END`: `input` still has the tag, `after` does not. `start` is the
  -- whole input with its address.
  unfoldable pub stream_section :
      Slice → Slice → List Bytes → Property → Bytes → Bytes → StreamInfo → IResult StreamInfo
  stream_section start backing external_data pack_info input after s = do
    (input, pi) ← PackInfo.parse input
    ok (input, record s { pack = some pi })
  stream_section start backing external_data unpack_info input after s = do
    (input, ui) ←
        UnpackInfo.parse_with_external
          (record { ptr = start.ptr + (length start.bytes - length input); bytes = input }) backing
          external_data
    ok (input, record s { unpack = some ui })
  stream_section start backing external_data sub_streams_info input after s = do
    (input, si) ← SubstreamInfo.parse input (folders_of s.unpack)
    ok (input, record s { substreams = some si })
  stream_section start backing external_data tag input after s = do
    (input, _) ← skip_sized after
    ok (input, s)

  -- The loop of `StreamInfo::parse_with_external`; each round takes a tag at least.
  unfoldable pub stream_sections :
      Slice → Slice → List Bytes → ℕ → Bytes → StreamInfo → IResult StreamInfo
  stream_sections start backing external_data zero input s = out_of_fuel
  stream_sections start backing external_data (suc fuel) input s = do
    (after, tag) ← Property.parse input
    if is_tag tag end then ok (after, s) else do
      (input, s) ← stream_section start backing external_data tag input after s
      stream_sections start backing external_data fuel input s

  -- `StreamInfo::parse_with_external`
  unfoldable pub parse_with_external : Slice → Slice → List Bytes → IResult StreamInfo
  parse_with_external start backing external_data =
      stream_sections start backing external_data (suc (length start.bytes)) start.bytes no_info

  -- `StreamInfo::parse`
  unfoldable pub parse : Slice → Slice → IResult StreamInfo
  parse start backing = parse_with_external start backing []

  -- `scan_stream_info_with_external`; the state is the number of folders.
  unfoldable pub scan_stream_section : List Bytes → Property → Bytes → Bytes → ℕ → IResult ℕ
  scan_stream_section external_data pack_info input after num_folders = do
    (input, _) ← scan_pack_info input
    ok (input, num_folders)
  scan_stream_section external_data unpack_info input after num_folders =
      scan_unpack_info_with_external input external_data
  scan_stream_section external_data sub_streams_info input after num_folders = do
    (input, _) ← scan_substream_info input num_folders
    ok (input, num_folders)
  scan_stream_section external_data tag input after num_folders = do
    (input, _) ← skip_sized after
    ok (input, num_folders)

  unfoldable pub scan_stream_sections : List Bytes → ℕ → Bytes → ℕ → IResult (Unit {0})
  scan_stream_sections external_data zero input num_folders = out_of_fuel
  scan_stream_sections external_data (suc fuel) input num_folders = do
    (after, tag) ← Property.parse input
    if is_tag tag end then ok (after, tt) else do
      (input, num_folders) ← scan_stream_section external_data tag input after num_folders
      scan_stream_sections external_data fuel input num_folders

  unfoldable pub scan_stream_info_with_external : Bytes → List Bytes → IResult (Unit {0})
  scan_stream_info_with_external input external_data =
      scan_stream_sections external_data (suc (length input)) input 0

  -- The loop of `StreamInfo::uses_external_folder_data` for a tag that does not end it.
  unfoldable pub skip_stream_section : Property → Bytes → Bytes → IResult (Unit {0})
  skip_stream_section pack_info input after = scan_pack_info input
  skip_stream_section sub_streams_info input after = scan_substream_info input 0
  skip_stream_section tag input after = do
    (remaining, size) ← sevenzip_varuint64_decode after
    size ← ok_or (try_usize size) (failure remaining too_large)
    (rest, _) ← pk.take_complete size remaining
    ok (rest, tt)

  declared_external : Bytes → IResult Bool
  declared_external input = do
    (remaining, (_, location)) ← parse_folder_declaration input
    ok (remaining, is_external location)

  external_loop : ℕ → Bytes → IResult Bool
  unfolding declared_external
  external_loop zero input = out_of_fuel
  external_loop (suc fuel) input = do
    (after, tag) ← Property.parse input
    if is_tag tag end
        then ok (after, false)
        else if is_tag tag unpack_info
        then declared_external input
        else do (input, _) ← skip_stream_section tag input after; external_loop fuel input

  -- `StreamInfo::uses_external_folder_data`
  unfoldable pub uses_external_folder_data : Bytes → IResult Bool
  unfolding external_loop
  uses_external_folder_data input = external_loop (suc (length input)) input
