-- ===== src/Tests/Solid.antt =====
-- Entries divided into folders, at concrete inputs.
use r7z.Prelude.{ℕ, ◌≡◌, refl, none, some, List, [], ◌∷◌, ok, arith, All}
use r7z.Write.Files.{WriteEntry, WriteEntryStream, buffered, EntryKind}
use r7z.Write.Solid.{
  limit, non_solid, record_size, would_exceed, place_entry, place_entries,
  entries_with_solid_folders,
}
use r7z.Write.Solid.Limits.{Fits}
use r7z.Write.Solid.Succeeds.{IsBuffered, entries_with_solid_folders-Succeeds}
use r7z.Write.Solid.Ledger.{files_in, bytes_in, entries_with_solid_folders-Fits}

abbrev entry : WriteEntryStream → ℕ → WriteEntry
entry stream folder_id = record {
  name = 97 ∷ [];
  raw_name = none;
  kind = EntryKind.file;
  meta = record { ctime = none; atime = none; mtime = none; attributes = none; start_pos = none };
  stream = stream;
  folder_id = folder_id;
}

-- Files of 3, 2, 0 and 7 bytes.
abbrev three : WriteEntryStream
three = buffered (1 ∷ 2 ∷ 3 ∷ [])

abbrev two : WriteEntryStream
two = buffered (1 ∷ 2 ∷ [])

abbrev seven : WriteEntryStream
seven = buffered (1 ∷ 2 ∷ 3 ∷ 4 ∷ 5 ∷ 6 ∷ 7 ∷ [])

abbrev entries : List WriteEntry
entries =
    entry three 0 ∷ entry two 0 ∷ entry WriteEntryStream.empty 0 ∷ entry seven 0 ∷ entry two 0 ∷ []

-- Under a limit of 6 bytes, the file of 7 bytes has a folder of its own.
abbrev placed : List WriteEntry
placed =
    entry three 0 ∷ entry two 0 ∷ entry WriteEntryStream.empty 0 ∷ entry seven 1 ∷ entry two 2 ∷ []

entries_with_solid_folders-Fits_example :
    Fits (limit (some 3) (some 6)) (files_in 0 placed) (bytes_in 0 placed)
unfolding entries_with_solid_folders place_entries place_entry would_exceed record_size
entries_with_solid_folders-Fits_example =
    entries_with_solid_folders-Fits entries (limit (some 3) (some 6)) refl 0

none_streams : All IsBuffered entries
none_streams = (λ e. cc, (λ e. cc, (λ e. cc, (λ e. cc, (λ e. cc, tt)))))

entries_with_solid_folders-Succeeds_example :
    (result : List WriteEntry) × (entries_with_solid_folders entries non_solid ≡ ok result)
entries_with_solid_folders-Succeeds_example =
    entries_with_solid_folders-Succeeds entries non_solid none_streams (omega arith) (omega arith)
