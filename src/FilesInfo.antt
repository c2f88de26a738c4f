-- ===== src/FilesInfo.antt =====
-- src/files_info.rs: the block of the header that describes the files, read with
-- `FilesInfo::parse_with_external`. The input is a slice with its address, since the bytes that are
-- kept are shared views of the buffer that it lies in.
pub mod Names
pub mod Values
pub mod Seen
pub mod Kinds
pub mod Scan
pub mod RoundTrip
pub mod Runs
use r7z.Prelude.{
  ℕ, zero, suc, ◌+◌, ◌-◌, Bool, Option, none, some, List, [], ◌∷◌, length, Result, ok, ◌>>=◌, ◌>>◌,
  ok_or, if◌then◌else◌, try_usize,
}
use r7z.Nom.{Bytes, IResult, ParseError, error, too_large}
use r7z.Packages.{Packages}
use r7z.Parsers.{sevenzip_varuint64_decode, bitmap_is_set}
use r7z.Property
use r7z.Property.{Property, files_info}
use r7z.Slice.{Slice, bytes_subslice}
use r7z.Sections.{read_sections}
use r7z.PackInfo.{expect_tag}
use Names.{validate_name_data}
use Values.{property_data, parse_defined, parse_defined_u64_values, parse_defined_u32_values}
use Seen.{register}

pub record FilesInfo : Type 0 where
  pub num_files : ℕ
  pub name_data : Bytes
  pub ctimes : List (Option ℕ)
  pub atimes : List (Option ℕ)
  pub mtimes : List (Option ℕ)
  pub start_positions : List (Option ℕ)
  pub attributes : List (Option ℕ)
  pub empty_streams : Bytes
  pub empty_files : Bytes
  pub anti_items : Bytes
  pub empty_stream_ordinals : List (Option ℕ)

-- The files before a property is read.
abbrev pub no_properties : ℕ → FilesInfo
no_properties num_files = record {
  num_files = num_files;
  name_data = [];
  ctimes = [];
  atimes = [];
  mtimes = [];
  start_positions = [];
  attributes = [];
  empty_streams = [];
  empty_files = [];
  anti_items = [];
  empty_stream_ordinals = [];
}

-- The values of a time or a position, and of the attributes.
unfoldable pub defined_u64 :
    ℕ → Slice → List Bytes → Bytes → Slice → Result ParseError (List (Option ℕ))
unfolding parse_defined parse_defined_u64_values
defined_u64 n backing external_data input block = do
  p ← parse_defined input block n backing external_data
  parse_defined_u64_values input p.all_defined p.bitmap p.values n

unfoldable pub defined_u32 :
    ℕ → Slice → List Bytes → Bytes → Slice → Result ParseError (List (Option ℕ))
unfolding parse_defined parse_defined_u32_values
defined_u32 n backing external_data input block = do
  p ← parse_defined input block n backing external_data
  parse_defined_u32_values input p.all_defined p.bitmap p.values n

-- `match tag` on the block of a property.
unfoldable pub read_property :
    ℕ → Slice → List Bytes → Property → Bytes → Slice → FilesInfo → Result ParseError FilesInfo
unfolding defined_u64 defined_u32 property_data validate_name_data
read_property n backing external_data Property.name input block files = do
  name_data ← property_data input block backing external_data
  validate_name_data name_data n input
  ok (record files { name_data = name_data })
read_property n backing external_data Property.ctime input block files = do
  values ← defined_u64 n backing external_data input block
  ok (record files { ctimes = values })
read_property n backing external_data Property.atime input block files = do
  values ← defined_u64 n backing external_data input block
  ok (record files { atimes = values })
read_property n backing external_data Property.mtime input block files = do
  values ← defined_u64 n backing external_data input block
  ok (record files { mtimes = values })
read_property n backing external_data Property.start_pos input block files = do
  values ← defined_u64 n backing external_data input block
  ok (record files { start_positions = values })
read_property n backing external_data Property.attributes input block files = do
  values ← defined_u32 n backing external_data input block
  ok (record files { attributes = values })
read_property n backing external_data Property.empty_stream input block files = do
  bitmap ← bytes_subslice backing block input
  ok (record files { empty_streams = bitmap })
read_property n backing external_data Property.empty_file input block files = do
  bitmap ← bytes_subslice backing block input
  ok (record files { empty_files = bitmap })
read_property n backing external_data Property.anti input block files = do
  bitmap ← bytes_subslice backing block input
  ok (record files { anti_items = bitmap })
read_property n backing external_data tag input block files = ok files

-- The state of the loop: the files so far, and the mask of the properties that were seen.
abbrev pub Loop : Type 0
Loop = FilesInfo × ℕ

-- The part of the input that starts with `rest`: every rest ends where the input ends.
abbrev pub slice_of : ℕ → Bytes → Bytes → Slice
slice_of finish rest block = record { ptr = finish - length rest; bytes = block }

-- `empty_stream_ordinals`, from file `i` on with `next_empty` empty streams before it.
unfoldable pub ordinals_from : Bytes → ℕ → ℕ → ℕ → List (Option ℕ)
ordinals_from empty_streams i next_empty zero = []
ordinals_from empty_streams i next_empty (suc num) =
    let is_empty = bitmap_is_set empty_streams i in
    let rest =
      ordinals_from empty_streams (i + 1) (if is_empty then next_empty + 1 else next_empty) num in
    (if is_empty then some next_empty else none) ∷ rest

-- `collect` panics on 2^59 files or more, which is not modelled.
unfoldable pub empty_stream_ordinals : Bytes → ℕ → List (Option ℕ)
unfolding ordinals_from
empty_stream_ordinals empty_streams num_files = ordinals_from empty_streams 0 0 num_files

module _ ⦃pk : Packages⦄ where
  -- A round of the loop behind the tag, which is not `END`.
  unfoldable pub property_section :
      ℕ → Slice → List Bytes → ℕ → Property → Bytes → Loop → IResult Loop
  unfolding register read_property
  property_section n backing external_data finish tag input (files, seen) = do
    seen ← register seen tag input
    (remaining, size) ← sevenzip_varuint64_decode input
    size ← ok_or (try_usize size) (error input too_large)
    (rest, block) ← pk.take_complete size remaining
    files ← read_property n backing external_data tag input (slice_of finish remaining block) files
    ok (rest, (files, seen))

  -- `FilesInfo::parse_with_external`
  unfoldable pub parse_with_external : Slice → Slice → List Bytes → IResult FilesInfo
  unfolding property_section empty_stream_ordinals
  parse_with_external orig backing external_data = do
    (input, tag) ← Property.parse orig.bytes
    expect_tag orig.bytes files_info tag
    (input, num_files) ← sevenzip_varuint64_decode input
    n ← ok_or (try_usize num_files) (error input too_large)
    (input, (files, _)) ←
        read_sections (property_section n backing external_data (orig.ptr + length orig.bytes))
          input (no_properties num_files, 0)
    ok (input, record files { empty_stream_ordinals = empty_stream_ordinals files.empty_streams n })

  -- `FilesInfo::parse`
  unfoldable pub parse : Slice → Slice → IResult FilesInfo
  unfolding parse_with_external
  parse input backing = parse_with_external input backing []
