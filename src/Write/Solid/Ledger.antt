-- ===== src/Write/Solid/Ledger.antt =====
-- src/write/mod.rs: what the folders of `entries_with_solid_folders` hold in the end.
use mathlib.Core.Path.{subst}
use r7z.Prelude.{
  ℕ, ◌+◌, ◌<◌, ◌≡◌, ◌≢◌, refl, sym, ◌∙◌, inl, inr, List, [], ◌∷◌, ok, >>=-eq-ok, ok_inj,
  if◌then◌else◌, ◌==◌, arith, Bool-cases, ==_iff,
}
use r7z.Write.Files.{WriteEntry}
use r7z.Write.Solid.{
  SolidMode, default_progress, Place, place_entry, place_entries, entries_with_solid_folders,
}
use r7z.Write.Solid.Limits.{
  Fits, stream_count, stream_size, Moved, Fits-eq, place_entry-Moved, zero_Fits,
}

-- The files and the bytes of the entries of a folder.
unfoldable pub files_in : ℕ → List WriteEntry → ℕ
files_in folder_id [] = 0
files_in folder_id (entry ∷ entries) =
    (if entry.folder_id == folder_id then stream_count entry.stream else 0)
    + files_in folder_id entries

unfoldable pub bytes_in : ℕ → List WriteEntry → ℕ
bytes_in folder_id [] = 0
bytes_in folder_id (entry ∷ entries) =
    (if entry.folder_id == folder_id then stream_size entry.stream else 0)
    + bytes_in folder_id entries

-- What the folders hold behind a place: nothing before it, and no more than they may from there on.
Ledger : SolidMode → Place → List WriteEntry → Type 0
Ledger mode place entries =
    (f : ℕ)
    → (f < place.0 → (files_in f entries ≡ 0) × (bytes_in f entries ≡ 0))
      × (f ≡ place.0
          → Fits mode (place.1.files + files_in f entries) (place.1.bytes + bytes_in f entries))
      × (place.0 < f → Fits mode (files_in f entries) (bytes_in f entries))

own_weight :
    (g f own others : ℕ)
    → (f ≡ g → (if g == f then own else 0) + others ≡ own + others)
      × (f ≢ g → (if g == f then own else 0) + others ≡ others)
own_weight g f own others = (λ e. ground arith, λ e. ground arith)

module _ (g : ℕ) (entry : WriteEntry) (rest : List WriteEntry) where
  -- The entry, put into folder `g`, ahead of the others.
  abbrev placed : List WriteEntry
  placed = record entry { folder_id = g } ∷ rest

  files-placed :
      (f : ℕ)
      → (f ≡ g → files_in f placed ≡ stream_count entry.stream + files_in f rest)
        × (f ≢ g → files_in f placed ≡ files_in f rest)
  unfolding files_in
  files-placed f = own_weight g f (stream_count entry.stream) (files_in f rest)

  bytes-placed :
      (f : ℕ)
      → (f ≡ g → bytes_in f placed ≡ stream_size entry.stream + bytes_in f rest)
        × (f ≢ g → bytes_in f placed ≡ bytes_in f rest)
  unfolding bytes_in
  bytes-placed f = own_weight g f (stream_size entry.stream) (bytes_in f rest)

empty-Ledger :
    (mode : SolidMode) (place : Place)
    → Fits mode place.1.files place.1.bytes
    → Ledger mode place []
unfolding Ledger files_in bytes_in
empty-Ledger mode place fits f =
    (λ h. (refl, refl), λ h. Fits-eq mode (omega arith) (omega arith) fits, λ h. zero_Fits mode)

entry-Ledger :
    (mode : SolidMode) (place next : Place) (entry : WriteEntry) (rest : List WriteEntry)
    → Fits mode place.1.files place.1.bytes
    → Moved mode place (stream_count entry.stream) (stream_size entry.stream) next
    → Ledger mode next rest
    → Ledger mode place (record entry { folder_id = next.0 } ∷ rest)
unfolding Ledger Moved
entry-Ledger mode place next entry rest fits (fits', inl (g, a, b)) ledger f =
    let (own, other) = files-placed next.0 entry rest f in
    let (own_bytes, other_bytes) = bytes-placed next.0 entry rest f in
    let (before, here, behind) = ledger f in
    (
      λ h. (
        other (λ e. omega arith) ∙ (before (omega arith)).0,
        other_bytes (λ e. omega arith) ∙ (before (omega arith)).1,
      ),
      λ h.
          Fits-eq mode (omega (arith, own (omega arith))) (omega (arith, own_bytes (omega arith)))
            (here (omega arith)),
      λ h.
          Fits-eq mode (sym (other (λ e. omega arith))) (sym (other_bytes (λ e. omega arith)))
            (behind (omega arith)),
    )
entry-Ledger mode place next entry rest fits (fits', inr (g, a, b)) ledger f =
    let (own, other) = files-placed next.0 entry rest f in
    let (own_bytes, other_bytes) = bytes-placed next.0 entry rest f in
    let (before, here, behind) = ledger f in
    (
      λ h. (
        other (λ e. omega arith) ∙ (before (omega arith)).0,
        other_bytes (λ e. omega arith) ∙ (before (omega arith)).1,
      ),
      λ h.
          Fits-eq mode (omega (arith, other (λ e. omega arith), (before (omega arith)).0))
            (omega (arith, other_bytes (λ e. omega arith), (before (omega arith)).1)) fits,
      λ h. elim (Bool-cases (f == next.0)) [
        | inl same ↦
            Fits-eq mode (omega (arith, own ((==_iff f next.0).0 same)))
              (omega (arith, own_bytes ((==_iff f next.0).0 same)))
              (here ((==_iff f next.0).0 same))
        | inr later ↦
            Fits-eq mode (sym (other (λ e. ground arith))) (sym (other_bytes (λ e. ground arith)))
              (behind (ground arith))
      ],
    )

pub next_Fits :
    (mode : SolidMode) (place next : Place) (count size : ℕ)
    → Moved mode place count size next
    → Fits mode next.1.files next.1.bytes
unfolding Moved
next_Fits mode place next count size m = m.0

place_entries-Ledger :
    (mode : SolidMode) (place : Place) (entries : List WriteEntry) {placed : List WriteEntry}
    → Fits mode place.1.files place.1.bytes
    → place_entries mode place entries ≡ ok placed
    → Ledger mode place placed
unfolding place_entries
place_entries-Ledger mode place [] fits e =
    subst (Ledger mode place) (ok_inj e) (empty-Ledger mode place fits)
place_entries-Ledger mode place (entry ∷ entries) fits e =
    let (next, e₁, k₁) = >>=-eq-ok (place_entry mode place entry.stream) _ e in
    let (rest, e₂, k₂) = >>=-eq-ok (place_entries mode next entries) _ k₁ in
    let moved = place_entry-Moved mode place entry.stream fits e₁ in
    subst (Ledger mode place) (ok_inj k₂) (
      entry-Ledger mode place next entry rest fits moved
        (place_entries-Ledger mode next entries (next_Fits mode place next _ _ moved) e₂))

-- When buffered entries are divided into folders, none holds more than the mode lets it: at most
-- one file without solid folders, and under limits at most one file or no more files and bytes than
-- the limits.
pub entries_with_solid_folders-Fits :
    (entries : List WriteEntry) (mode : SolidMode) {placed : List WriteEntry}
    → entries_with_solid_folders entries mode ≡ ok placed
    → (f : ℕ) → Fits mode (files_in f placed) (bytes_in f placed)
unfolding entries_with_solid_folders Ledger
entries_with_solid_folders-Fits entries mode e f =
    let ledger = place_entries-Ledger mode (0, default_progress) entries (zero_Fits mode) e in
    elim (Bool-cases (f == 0)) [
      | inl first ↦ Fits-eq mode (omega arith) (omega arith) ((ledger f).1 ((==_iff f 0).0 first))
      | inr later ↦ (ledger f).2 (ground arith)
    ]
