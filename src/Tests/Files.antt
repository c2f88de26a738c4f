-- ===== src/Tests/Files.antt =====
-- The file block at concrete inputs.
use mathlib.Core.List.{flat_map}
use r7z.Prelude.{
  ℕ, ◌≡◌, ◌⊎◌, ◌≤◌, refl, sym, append-nil, leb, leb→le, Bool, true, false, none, some, List, [],
  ◌∷◌, ◌++◌, map, length, ok, err, arith,
}
use r7z.Nom.{Bytes, ParseError, error, verify}
use r7z.Property.{Property}
use r7z.Property.Codes.{to_u8}
use r7z.Slice.{Slice, Within}
use r7z.Tests.Bundle.{bundle}
use r7z.Parsers.{sevenzip_varuint64_encode, encode_loop}
use r7z.Write.Bitmap.{bools_to_bytes, set_bits}
use r7z.Write.Files.{
  WriteEntry, EntryMeta, since_epoch, file, directory, empty, streaming, write_files_info,
  write_empty_properties, write_names, write_time_property, write_u64_property, write_u32_property,
  values_block, value_bytes, count_some, empty_flags, no_stream_flags, name_bytes, unit_bytes,
  to_le_bytes,
}
use r7z.FilesInfo.{FilesInfo, parse_with_external}
use r7z.FilesInfo.Names.{name_slices, validate_name_data, as_chunks, all_terminated, any_null}
use r7z.FilesInfo.Names.Laws.{take_names, name_block, validate_name_data-Names}
use r7z.FilesInfo.Seen.Laws.{register_all, register_all-no_repeat, is_ok}
use r7z.FilesInfo.Kinds
use r7z.FilesInfo.Kinds.{entry_kind, is_symlink_mode}
use r7z.FilesInfo.Kinds.Written.{entry_kind-described}
use r7z.FilesInfo.RoundTrip.{IsEntry, parse_with_external-write_files_info}
use r7z.FilesInfo.RoundTrip.Shape.{described}
use r7z.FilesInfo.Scan.{scan_files_info_with_external}
use r7z.FilesInfo.Scan.Laws.{scan_files_info-parse_with_external}
use r7z.Termination.Files.{parse_files_info-ends}

abbrev no_meta : EntryMeta
no_meta = record { ctime = none; atime = none; mtime = none; attributes = none; start_pos = none }

-- A directory `d` and a file `f` with a time.
abbrev dir_entry : WriteEntry
dir_entry = record {
  name = 100 ∷ [];
  raw_name = none;
  kind = directory;
  meta = no_meta;
  stream = empty;
  folder_id = 0;
}

abbrev file_entry : WriteEntry
file_entry = record {
  name = 102 ∷ [];
  raw_name = none;
  kind = file;
  meta = record no_meta { mtime = some (since_epoch 1_700_000_000 500) };
  stream = streaming;
  folder_id = 0;
}

abbrev entries : List WriteEntry
entries = dir_entry ∷ file_entry ∷ []

entries_good : IsEntry dir_entry × (IsEntry file_entry × Unit {0})
unfolding unit_bytes to_le_bytes flat_map
entries_good = (
  record { named = (refl, tt); start_fits = tt; attributes_fit = tt },
  (record { named = (refl, tt); start_fits = tt; attributes_fit = tt }, tt),
)

-- The name `a`, U+0000, `b`: what is written for it is refused when it is read.
null_name_refused :
    validate_name_data (name_bytes (record file_entry { name = 97 ∷ 0 ∷ 98 ∷ [] } ∷ [])) 1 []
    ≡ err (error [] verify)
unfolding validate_name_data as_chunks all_terminated any_null name_bytes unit_bytes to_le_bytes
null_name_refused = refl

-- The block in a buffer that starts at address 1000, with an end tag behind it.
abbrev header : Slice
header = record { ptr = 1_000; bytes = write_files_info entries ++ (0 ∷ []) }

header_short : leb (length header.bytes) 200 ≡ true
unfolding write_files_info write_empty_properties write_names write_time_property write_u64_property
    write_u32_property values_block value_bytes count_some empty_flags no_stream_flags name_bytes
    unit_bytes to_le_bytes sevenzip_varuint64_encode encode_loop bools_to_bytes set_bits
header_short = refl

header-Within : Within header header
header-Within = record {
  before = [];
  after = [];
  at_address = refl;
  same_bytes = sym (append-nil header.bytes);
  addressable = omega (arith, leb→le (length header.bytes) 200 header_short);
}

parse_with_external-write_files_info_example :
    parse_with_external header header [] ≡ ok (0 ∷ [], described entries)
parse_with_external-write_files_info_example =
    parse_with_external-write_files_info header header [] entries (0 ∷ []) header-Within refl
      entries_good (omega arith)

entry_kind-described_example : entry_kind (described entries) 0 ≡ Kinds.directory
unfolding is_symlink_mode
entry_kind-described_example = entry_kind-described entries 0 dir_entry refl

scan_files_info-parse_with_external_example :
    (p : ℕ × Bool) × (scan_files_info_with_external header.bytes ≡ ok (0 ∷ [], p)) × (p.0 ≡ 2)
scan_files_info-parse_with_external_example =
    scan_files_info-parse_with_external header header [] (0 ∷ []) (described entries)
      parse_with_external-write_files_info_example

parse_files_info-ends_example :
    ((p : Bytes × FilesInfo) × (parse_with_external header header [] ≡ ok p)
      × (length p.0 ≤ length header.bytes))
    ⊎ ((e : ParseError) × (parse_with_external header header [] ≡ err e))
parse_files_info-ends_example = parse_files_info-ends header header []

-- Two names, `a` and the empty one.
abbrev two_names : Bytes
two_names = 97 ∷ 0 ∷ 0 ∷ 0 ∷ 0 ∷ 0 ∷ []

two_names_accepted : validate_name_data two_names 2 [] ≡ ok tt
unfolding validate_name_data as_chunks all_terminated any_null
two_names_accepted = refl

validate_name_data-Names_example :
    (names : List Bytes) × (take_names 2 (name_slices two_names 2) ≡ map (λ name. some name) names)
    × (length names ≡ 2)
    × (name_block names ≡ two_names)
validate_name_data-Names_example = validate_name_data-Names two_names 2 [] two_names_accepted

register_all-no_repeat_example :
    is_ok (register_all 0 (Property.name ∷ Property.dummy ∷ Property.name ∷ []) []) ≡ false
unfolding to_u8
register_all-no_repeat_example =
    register_all-no_repeat (Property.name ∷ Property.dummy ∷ Property.name ∷ []) []
