-- ===== src/Write/Solid.antt =====
-- src/write/mod.rs: how buffered entries are divided into folders, with `SolidMode` and
-- `WriteFolderId` of src/write/model.rs. A folder id is its number, and a limit of `NonZeroU64` a
-- number. `entries_with_solid_folders` drops the progress and the entries when a step fails, so
-- that a step gives them back on success only.
pub mod Limits
pub mod Ledger
pub mod Succeeds
use r7z.Prelude.{
  ℕ, zero, suc, ◌+◌, Bool, true, false, ◌&&◌, ◌||◌, Option, none, some, List, [], ◌∷◌, length,
  Result, ok, err, ok_or, ◌>>=◌, if◌then◌else◌, ltb, checked_add,
}
use r7z.Errors.{R7zError, parse}
use r7z.Resources.{exceeds}
use r7z.Write.Files.{
  WriteEntry, WriteEntryStream, WriteEntryStream.empty, buffered, streaming, has_stream,
}

pub data SolidMode : Type 0 where
  solid non_solid : SolidMode
  limit : (max_files max_bytes : Option ℕ) → SolidMode

pub record FolderProgress : Type 0 where
  pub files : ℕ
  pub bytes : ℕ

abbrev pub default_progress : FolderProgress
default_progress = record { files = 0; bytes = 0 }

-- `FolderProgress::record`.
unfoldable pub record_size : FolderProgress → ℕ → Result R7zError FolderProgress
record_size p size = ok_or (checked_add p.files 1) parse >>= λ files.
    ok_or (checked_add p.bytes size) parse >>= λ bytes. ok (record { files = files; bytes = bytes })

unfoldable pub would_exceed : FolderProgress → SolidMode → ℕ → Result R7zError Bool
would_exceed p solid size = ok false
would_exceed p non_solid size = ok (ltb 0 p.files)
would_exceed p (limit max_files max_bytes) size =
    ok_or (checked_add p.files 1) parse >>= λ next_files.
    ok_or (checked_add p.bytes size) parse >>= λ next_bytes.
    ok (ltb 0 p.files && (exceeds max_files next_files || exceeds max_bytes next_bytes))

abbrev pub is_non_solid : SolidMode → Bool
is_non_solid solid = false
is_non_solid non_solid = true
is_non_solid (limit max_files max_bytes) = false

-- `WriteEntryStream::buffered_data`.
abbrev pub buffered_data : WriteEntryStream → Option (List ℕ)
buffered_data WriteEntryStream.empty = none
buffered_data (buffered content) = some content
buffered_data streaming = none

abbrev pub buffered_size : WriteEntryStream → Result R7zError ℕ
buffered_size stream = ok_or (buffered_data stream) parse >>= λ content. ok (length content)

-- The folder of the next entry, and what that folder holds.
abbrev pub Place : Type 0
Place = ℕ × FolderProgress

-- `folder_id.next().ok_or(..)?`, and an empty progress.
abbrev pub new_folder : ℕ → Result R7zError Place
new_folder folder_id = ok_or (checked_add folder_id 1) parse >>= λ next. ok (next, default_progress)

abbrev pub new_folder_if : Bool → Place → Result R7zError Place
new_folder_if true place = new_folder place.0
new_folder_if false place = ok place

abbrev pub place_sized : SolidMode → Place → ℕ → Result R7zError Place
place_sized mode place size = would_exceed place.1 mode size >>= λ exceeded.
    new_folder_if exceeded place >>= λ found.
    record_size found.1 size >>= λ progress. ok (found.0, progress)

-- One round of the loop: the folder of the entry, and what the folder then holds.
unfoldable pub place_entry : SolidMode → Place → WriteEntryStream → Result R7zError Place
place_entry mode place stream =
    if has_stream stream
    then (buffered_size stream >>= λ size. place_sized mode place size)
    else new_folder_if (is_non_solid mode && ltb 0 place.1.files) place

unfoldable pub place_entries :
    SolidMode → Place → List WriteEntry → Result R7zError (List WriteEntry)
place_entries mode place [] = ok []
place_entries mode place (entry ∷ entries) = place_entry mode place entry.stream >>= λ next.
    place_entries mode next entries >>= λ rest. ok (record entry { folder_id = next.0 } ∷ rest)

unfoldable pub entries_with_solid_folders :
    List WriteEntry → SolidMode → Result R7zError (List WriteEntry)
entries_with_solid_folders entries mode = place_entries mode (0, default_progress) entries
