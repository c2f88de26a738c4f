-- ===== src/Write/Solid/Succeeds.antt =====
-- src/write/mod.rs: when `entries_with_solid_folders` succeeds.
use r7z.Prelude.{
  ℕ, suc, ◌+◌, ◌<◌, ◌≡◌, ◌≢◌, refl, ap, ◌⊎◌, inl, inr, Bool, true, false, ◌&&◌, ◌||◌, List, [], ◌∷◌,
  length, Result, ok, ok_or, ltb, checked_add, word_mod, arith, All,
}
use r7z.Errors.{R7zError, parse}
use r7z.Resources.{exceeds}
use r7z.Write.Files.{WriteEntry, WriteEntryStream, buffered, streaming}
use r7z.Write.Solid.{
  SolidMode, solid, non_solid, limit, FolderProgress, default_progress, record_size, would_exceed,
  Place, new_folder_if, place_sized, place_entry, place_entries, entries_with_solid_folders,
}
use r7z.Write.Solid.Limits.{
  Fits, stream_count, stream_size, Moved, new_folder_if-Moves, place_entry-Moved, zero_Fits,
}
use r7z.Write.Solid.Ledger.{next_Fits}

abbrev pub total_size : List WriteEntry → ℕ
total_size [] = 0
total_size (entry ∷ entries) = stream_size entry.stream + total_size entries

abbrev pub IsBuffered : WriteEntry → Type 0
IsBuffered entry = entry.stream ≢ streaming

-- A result that is a value.
abbrev Succeeds : {A : Type 0} → Result R7zError A → Type 0
Succeeds {A = A} r = (a : A) × (r ≡ ok a)

-- A place that has room for some more entries, and bytes of theirs.
Room : Place → (entries bytes : ℕ) → Type 0
Room place entries bytes =
    (place.0 + entries < word_mod)
    × (place.1.files + entries < word_mod)
    × (place.1.bytes + bytes < word_mod)

checked_add-fits : (a b : ℕ) → a + b < word_mod → ok_or (checked_add a b) parse ≡ ok (a + b)
checked_add-fits a b h = ground arith

would_exceed-Succeeds :
    (p : FolderProgress) (mode : SolidMode) (size : ℕ)
    → p.files + 1 < word_mod
    → p.bytes + size < word_mod
    → Succeeds (would_exceed p mode size)
unfolding would_exceed
would_exceed-Succeeds p solid size h k = (_, refl)
would_exceed-Succeeds p non_solid size h k = (_, refl)
would_exceed-Succeeds p (limit max_files max_bytes) size h k = (
  ltb 0 p.files && (exceeds max_files (p.files + 1) || exceeds max_bytes (p.bytes + size)),
  rw (checked_add-fits p.files 1 h, checked_add-fits p.bytes size k) refl,
)

record_size-Succeeds :
    (p : FolderProgress) (size : ℕ)
    → p.files + 1 < word_mod
    → p.bytes + size < word_mod
    → Succeeds (record_size p size)
unfolding record_size
record_size-Succeeds p size h k = (
  record { files = p.files + 1; bytes = p.bytes + size },
  rw (checked_add-fits p.files 1 h, checked_add-fits p.bytes size k) refl,
)

new_folder_if-Succeeds :
    (b : Bool) (place : Place) → place.0 + 1 < word_mod → Succeeds (new_folder_if b place)
new_folder_if-Succeeds true place h =
    ((place.0 + 1, default_progress), rw (checked_add-fits place.0 1 h) refl)
new_folder_if-Succeeds false place h = (_, refl)

-- The folder that is found has room for the file.
space_found :
    (b : Bool) (place found : Place) (size : ℕ)
    → ((b ≡ false) × (found ≡ place)) ⊎ ((b ≡ true) × (found ≡ (place.0 + 1, default_progress)))
    → place.1.files + 1 < word_mod
    → place.1.bytes + size < word_mod
    → (found.1.files + 1 < word_mod) × (found.1.bytes + size < word_mod)
space_found b place found size (inl (stays, e)) h k =
    (omega (arith, ap (λ n. n.1.files) e), omega (arith, ap (λ n. n.1.bytes) e))
space_found b place found size (inr (moves, e)) h k =
    (omega (arith, ap (λ n. n.1.files) e), omega (arith, ap (λ n. n.1.bytes) e))

place_sized-Succeeds :
    (mode : SolidMode) (place : Place) (size : ℕ)
    → place.0 + 1 < word_mod
    → place.1.files + 1 < word_mod
    → place.1.bytes + size < word_mod
    → Succeeds (place_sized mode place size)
place_sized-Succeeds mode place size g h k =
    let (b, e₁) = would_exceed-Succeeds place.1 mode size h k in
    let (found, e₂) = new_folder_if-Succeeds b place g in
    let room = space_found b place found size (new_folder_if-Moves b place e₂) h k in
    let (q, e₃) = record_size-Succeeds found.1 size room.0 room.1 in
    ((found.0, q), rw (e₁, e₂, e₃) refl)

place_entry-Succeeds :
    (mode : SolidMode) (place : Place) (stream : WriteEntryStream) (count bytes : ℕ)
    → stream ≢ streaming
    → Room place (suc count) (stream_size stream + bytes)
    → Succeeds (place_entry mode place stream)
unfolding place_entry Room
place_entry-Succeeds mode place WriteEntryStream.empty count bytes h (f, n, b) =
    new_folder_if-Succeeds _ place (omega arith)
place_entry-Succeeds mode place (buffered content) count bytes h (f, n, b) =
    place_sized-Succeeds mode place (length content) (omega arith) (omega arith) (omega arith)
place_entry-Succeeds mode place streaming count bytes h room = absurd (h refl)

stream_count-le : (stream : WriteEntryStream) → stream_count stream < 2
stream_count-le WriteEntryStream.empty = omega arith
stream_count-le (buffered content) = omega arith
stream_count-le streaming = omega arith

space_left :
    (mode : SolidMode) (place next : Place) (stream : WriteEntryStream) (count bytes : ℕ)
    → Moved mode place (stream_count stream) (stream_size stream) next
    → Room place (suc count) (stream_size stream + bytes)
    → Room next count bytes
unfolding Room Moved
space_left mode place next stream count bytes (fits, inl (g, a, b)) (f, n, k) =
    (omega arith, omega (arith, stream_count-le stream), omega arith)
space_left mode place next stream count bytes (fits, inr (g, a, b)) (f, n, k) =
    (omega arith, omega (arith, stream_count-le stream), omega arith)

place_entries-Succeeds :
    (mode : SolidMode) (place : Place) (entries : List WriteEntry)
    → Fits mode place.1.files place.1.bytes
    → All IsBuffered entries
    → Room place (length entries) (total_size entries)
    → Succeeds (place_entries mode place entries)
unfolding place_entries
place_entries-Succeeds mode place [] fits h room = (_, refl)
place_entries-Succeeds mode place (entry ∷ entries) fits (h, k) room =
    let count = length entries in
    let bytes = total_size entries in
    let (next, e₁) = place_entry-Succeeds mode place entry.stream count bytes h room in
    let moved = place_entry-Moved mode place entry.stream fits e₁ in
    let (rest, e₂) =
      place_entries-Succeeds mode next entries (next_Fits mode place next _ _ moved) k
        (space_left mode place next entry.stream count bytes moved room) in
    (record entry { folder_id = next.0 } ∷ rest, rw (e₁, e₂) refl)

-- Entries without a stream still to be read are divided into folders whenever their number and
-- the number of their bytes fit 64 bits.
pub entries_with_solid_folders-Succeeds :
    (entries : List WriteEntry) (mode : SolidMode)
    → All IsBuffered entries
    → length entries < word_mod
    → total_size entries < word_mod
    → (placed : List WriteEntry) × (entries_with_solid_folders entries mode ≡ ok placed)
unfolding entries_with_solid_folders Room
entries_with_solid_folders-Succeeds entries mode h n b =
    place_entries-Succeeds mode (0, default_progress) entries (zero_Fits mode) h
      (omega arith, omega arith, omega arith)
