-- ===== src/Write/Files.antt =====
-- src/write/header.rs: `write_files_info` and the property blocks inside it. The properties are
-- functions of the entries, which src/write/model.rs declares.
use r7z.Prelude.{
  ℕ, zero, suc, ◌+◌, ◌-◌, ◌*◌, ◌/◌, ◌%◌, Bool, true, false, not, ◌||◌, Option, none, some, List, [],
  ◌∷◌, ◌++◌, map, length, if◌then◌else◌, word_mod,
}
use Prim.Native.Nat.{min}
use r7z.Nom.{Bytes}
use r7z.Parsers.{sevenzip_varuint64_encode}
use r7z.Write.Bitmap.{bools_to_bytes}
use r7z.Write.Streams.Crcs.{is_some, any_some, all_some, defined_flags}

pub data EntryKind : Type 0 where
  file directory anti : EntryKind

pub data WriteEntryStream : Type 0 where
  empty : WriteEntryStream
  buffered : Bytes → WriteEntryStream
  streaming : WriteEntryStream

-- `std::time::SystemTime`, as `duration_since(UNIX_EPOCH)` gives it: seconds and nanoseconds on
-- either side of the epoch.
pub data SystemTime : Type 0 where
  since_epoch : ℕ → ℕ → SystemTime
  before_epoch : ℕ → ℕ → SystemTime

pub record EntryMeta : Type 0 where
  pub ctime : Option SystemTime
  pub atime : Option SystemTime
  pub mtime : Option SystemTime
  pub attributes : Option ℕ
  pub start_pos : Option ℕ

-- `name` is the UTF-16 code units of the string, and `raw_name` the bytes of the raw name.
pub record WriteEntry : Type 0 where
  pub name : List ℕ
  pub raw_name : Option Bytes
  pub kind : EntryKind
  pub meta : EntryMeta
  pub stream : WriteEntryStream
  pub folder_id : ℕ

abbrev pub has_stream : WriteEntryStream → Bool
has_stream empty = false
has_stream (buffered _) = true
has_stream streaming = true

abbrev pub max_u64 : ℕ
max_u64 = word_mod - 1

unfoldable pub system_time_to_filetime : SystemTime → ℕ
system_time_to_filetime (since_epoch secs nanos) =
    let secs = min (secs + 11_644_473_600) max_u64 in
    min (min (secs * 10_000_000) max_u64 + nanos / 100) max_u64
system_time_to_filetime (before_epoch secs nanos) = 0

-- `v.to_le_bytes()` in as many bytes as the type has.
unfoldable pub to_le_bytes : ℕ → ℕ → Bytes
to_le_bytes zero v = []
to_le_bytes (suc width) v = v % 256 ∷ to_le_bytes width (v / 256)

-- `for val in values.into_iter().flatten()`
unfoldable pub value_bytes : ℕ → List (Option ℕ) → Bytes
unfolding to_le_bytes
value_bytes width [] = []
value_bytes width (none ∷ vs) = value_bytes width vs
value_bytes width (some v ∷ vs) = to_le_bytes width v ++ value_bytes width vs

-- `values.iter().filter(|v| v.is_some()).count()`
unfoldable pub count_some : List (Option ℕ) → ℕ
count_some [] = 0
count_some (v ∷ vs) = (if is_some v then 1 else 0) + count_some vs

-- The bitmap, which is left out when all values are defined.
abbrev pub defined_bitmap : List (Option ℕ) → Bytes
defined_bitmap values = if all_some values then [] else bools_to_bytes (defined_flags values)

-- The block of `write_u64_property` and `write_u32_property`, for values of a width.
unfoldable pub values_block : ℕ → ℕ → List (Option ℕ) → Bytes
unfolding value_bytes count_some
values_block width tag values =
    if any_some values
    then tag
      ∷ (sevenzip_varuint64_encode
            (1 + length (defined_bitmap values) + 1 + count_some values * width)
          ++ ((if all_some values then 1 else 0)
              ∷ (defined_bitmap values ++ (0x00 ∷ value_bytes width values))))
    else []

unfoldable pub write_u64_property : ℕ → List WriteEntry → (WriteEntry → Option ℕ) → Bytes
unfolding values_block
write_u64_property tag entries value = values_block 8 tag (map value entries)

unfoldable pub write_u32_property : ℕ → List WriteEntry → (WriteEntry → Option ℕ) → Bytes
unfolding values_block
write_u32_property tag entries value = values_block 4 tag (map value entries)

abbrev pub filetime : Option SystemTime → Option ℕ
filetime none = none
filetime (some t) = some (system_time_to_filetime t)

unfoldable pub write_time_property : ℕ → List WriteEntry → (WriteEntry → Option SystemTime) → Bytes
unfolding write_u64_property system_time_to_filetime
write_time_property tag entries value = write_u64_property tag entries (λ e. filetime (value e))

-- `unit.to_le_bytes()` of every code unit.
unfoldable pub unit_bytes : List ℕ → Bytes
unfolding to_le_bytes
unit_bytes [] = []
unit_bytes (unit ∷ units) = to_le_bytes 2 unit ++ unit_bytes units

abbrev pub name_or : List ℕ → Option Bytes → Bytes
name_or name none = unit_bytes name
name_or name (some raw) = raw

abbrev pub entry_name : WriteEntry → Bytes
entry_name e = name_or e.name e.raw_name

-- The loop over the entries.
unfoldable pub name_bytes : List WriteEntry → Bytes
unfolding unit_bytes
name_bytes [] = []
name_bytes (e ∷ es) = entry_name e ++ (0 ∷ 0 ∷ name_bytes es)

unfoldable pub write_names : List WriteEntry → Bytes
unfolding name_bytes
write_names entries =
    0x11
    ∷ (sevenzip_varuint64_encode (1 + length (name_bytes entries)) ++ (0x00 ∷ name_bytes entries))

abbrev pub any : List Bool → Bool
any [] = false
any (b ∷ bs) = b || any bs

-- A tag, a size and a bitmap.
abbrev pub flags_block : ℕ → List Bool → Bytes
flags_block tag flags =
    tag ∷ (sevenzip_varuint64_encode (length (bools_to_bytes flags)) ++ bools_to_bytes flags)

abbrev pub optional_flags : ℕ → List Bool → Bytes
optional_flags tag flags = if any flags then flags_block tag flags else []

abbrev pub is_file : EntryKind → Bool
is_file file = true
is_file _ = false

abbrev pub is_anti : EntryKind → Bool
is_anti anti = true
is_anti _ = false

-- `entries.iter().filter(|entry| !entry.stream.has_stream())`, and a flag for each of them.
unfoldable pub empty_flags : (EntryKind → Bool) → List WriteEntry → List Bool
empty_flags test [] = []
empty_flags test (e ∷ es) =
    let rest = empty_flags test es in if has_stream e.stream then rest else test e.kind ∷ rest

unfoldable pub no_stream_flags : List WriteEntry → List Bool
no_stream_flags = map (λ e. not (has_stream e.stream))

unfoldable pub write_empty_properties : List WriteEntry → Bytes
unfolding empty_flags no_stream_flags
write_empty_properties entries =
    if any (no_stream_flags entries)
    then flags_block 0x0e (no_stream_flags entries)
      ++ (optional_flags 0x0f (empty_flags is_file entries)
          ++ optional_flags 0x10 (empty_flags is_anti entries))
    else []

unfoldable pub write_files_info : List WriteEntry → Bytes
unfolding write_empty_properties write_names write_time_property write_u64_property
    write_u32_property
write_files_info entries =
    0x05
    ∷ (sevenzip_varuint64_encode (length entries)
        ++ (write_empty_properties entries
            ++ (write_names entries
                ++ (write_time_property 0x12 entries (λ e. e.meta.ctime)
                    ++ (write_time_property 0x13 entries (λ e. e.meta.atime)
                        ++ (write_time_property 0x14 entries (λ e. e.meta.mtime)
                            ++ (write_u64_property 0x18 entries (λ e. e.meta.start_pos)
                                ++ (write_u32_property 0x15 entries (λ e. e.meta.attributes)
                                    ++ (0x00 ∷ [])))))))))
