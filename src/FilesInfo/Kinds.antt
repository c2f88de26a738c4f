-- ===== src/FilesInfo/Kinds.antt =====
-- src/files_info.rs and src/entries.rs: the kind of an entry, from the bitmaps and the attributes.
pub mod Written
use r7z.Prelude.{ℕ, ◌/◌, ◌^◌, Bool, true, false, List, Option, none, some, bit_and, get_elem?, ◌==◌}
use r7z.Parsers.{bitmap_is_set}
use r7z.FilesInfo.{FilesInfo}

-- `EntryKind<()>`; `EntryType` has the same constructors without the stream.
pub data EntryKind : Type 0 where
  file symlink empty_file empty_symlink directory anti : EntryKind

abbrev pub flatten : Option (Option ℕ) → Option ℕ
flatten none = none
flatten (some v) = v

-- `FilesInfo::empty_stream_ordinal`
unfoldable pub empty_stream_ordinal : FilesInfo → ℕ → Option ℕ
empty_stream_ordinal s i = flatten (get_elem? s.empty_stream_ordinals i)

abbrev pub flag_of : List ℕ → Option ℕ → Bool
flag_of bitmap none = false
flag_of bitmap (some empty_idx) = bitmap_is_set bitmap empty_idx

unfoldable pub is_empty_stream : FilesInfo → ℕ → Bool
is_empty_stream s i = bitmap_is_set s.empty_streams i

unfoldable pub is_empty_file : FilesInfo → ℕ → Bool
unfolding empty_stream_ordinal
is_empty_file s i = flag_of s.empty_files (empty_stream_ordinal s i)

unfoldable pub is_anti : FilesInfo → ℕ → Bool
unfolding empty_stream_ordinal
is_anti s i = flag_of s.anti_items (empty_stream_ordinal s i)

-- `((attrs >> 16) & 0o170_000) == 0o120_000`
unfoldable pub is_symlink_mode : Option ℕ → Bool
is_symlink_mode none = false
is_symlink_mode (some attrs) = bit_and (attrs / 2 ^ 16) 61_440 == 40_960

unfoldable pub is_symlink : FilesInfo → ℕ → Bool
unfolding is_symlink_mode
is_symlink s i = is_symlink_mode (flatten (get_elem? s.attributes i))

-- The arms of `entry_kind`: anti-item, empty stream, symlink, empty file.
unfoldable pub kind_of : Bool → Bool → Bool → Bool → EntryKind
kind_of true _ _ _ = anti
kind_of false false false _ = file
kind_of false false true _ = symlink
kind_of false true true _ = empty_symlink
kind_of false true false true = empty_file
kind_of false true false false = directory

unfoldable pub entry_kind : FilesInfo → ℕ → EntryKind
unfolding is_anti is_empty_stream is_symlink is_empty_file kind_of
entry_kind s i = kind_of (is_anti s i) (is_empty_stream s i) (is_symlink s i) (is_empty_file s i)

abbrev is_directory_kind : EntryKind → Bool
is_directory_kind directory = true
is_directory_kind _ = false

unfoldable pub is_directory : FilesInfo → ℕ → Bool
unfolding entry_kind
is_directory s i = is_directory_kind (entry_kind s i)

-- `EntryKind::has_stream`
unfoldable pub has_stream : EntryKind → Bool
has_stream file = true
has_stream symlink = true
has_stream _ = false
