-- ===== src/Write/Solid/Limits.antt =====
-- src/write/mod.rs: what the folders of `entries_with_solid_folders` hold.
use mathlib.Core.Path.{subst}
use r7z.Prelude.{
  ℕ, ◌+◌, ◌≤◌, ◌≡◌, refl, sym, ◌∙◌, ◌⊎◌, inl, inr, Bool, true, false, ◌&&◌, ◌||◌, Option, none,
  some, length, ok, ok_or, >>=-eq-ok, ok_inj, ap, if◌then◌else◌, ltb, checked_add, arith,
  Bool-cases,
}
use r7z.Errors.{parse}
use r7z.Resources.{exceeds}
use r7z.Write.Files.{WriteEntryStream, buffered, streaming, has_stream}
use r7z.Write.Solid.{
  SolidMode, solid, non_solid, limit, FolderProgress, default_progress, record_size, would_exceed,
  Place, new_folder_if, place_sized, place_entry,
}

abbrev pub IsBelow : Option ℕ → ℕ → Type 0
IsBelow none n = Unit {0}
IsBelow (some most) n = n ≤ most

-- What a mode lets a folder of `files` files and `bytes` bytes hold: one file is never too large.
abbrev pub Fits : SolidMode → ℕ → ℕ → Type 0
Fits solid files bytes = Unit {0}
Fits non_solid files bytes = files ≤ 1
Fits (limit max_files max_bytes) files bytes =
    (files ≤ 1) ⊎ (IsBelow max_files files × IsBelow max_bytes bytes)

abbrev pub stream_count : WriteEntryStream → ℕ
stream_count stream = if has_stream stream then 1 else 0

abbrev pub stream_size : WriteEntryStream → ℕ
stream_size WriteEntryStream.empty = 0
stream_size (buffered content) = length content
stream_size streaming = 0

-- An entry of `count` files and `size` bytes goes into the folder at hand or begins the next one,
-- which holds no more than it may.
unfoldable pub Moved : SolidMode → Place → (count size : ℕ) → Place → Type 0
Moved mode place count size next =
    Fits mode next.1.files next.1.bytes
    × (((next.0 ≡ place.0)
          × (next.1.files ≡ place.1.files + count)
          × (next.1.bytes ≡ place.1.bytes + size))
        ⊎ ((next.0 ≡ place.0 + 1) × (next.1.files ≡ count) × (next.1.bytes ≡ size)))

neither : (a b : Bool) → (a || b) ≡ false → (a ≡ false) × (b ≡ false)
neither true b h = cc
neither false b h = (refl, h)

pub Fits-eq : (mode : SolidMode) {a b c d : ℕ} → a ≡ c → b ≡ d → Fits mode a b → Fits mode c d
Fits-eq mode {d = d} e k h = subst (λ n. Fits mode n d) e (subst (Fits mode _) k h)

checked_add-ok : (a b : ℕ) {c : ℕ} → ok_or (checked_add a b) parse ≡ ok c → c ≡ a + b
checked_add-ok a b e = ground arith

pub new_folder_if-Moves :
    (b : Bool) (place : Place) {next : Place}
    → new_folder_if b place ≡ ok next
    → ((b ≡ false) × (next ≡ place)) ⊎ ((b ≡ true) × (next ≡ (place.0 + 1, default_progress)))
new_folder_if-Moves true place e =
    let (g, e₁, k₁) = >>=-eq-ok (ok_or (checked_add place.0 1) parse) _ e in
    inr (refl, sym (ok_inj k₁) ∙ ap (λ n. (n, default_progress)) (checked_add-ok place.0 1 e₁))
new_folder_if-Moves false place e = inl (refl, sym (ok_inj e))

record_size-ok :
    (p : FolderProgress) (size : ℕ) {q : FolderProgress}
    → record_size p size ≡ ok q
    → (q.files ≡ p.files + 1) × (q.bytes ≡ p.bytes + size)
unfolding record_size
record_size-ok p size e =
    let (files, e₁, k₁) = >>=-eq-ok (ok_or (checked_add p.files 1) parse) _ e in
    let (bytes, e₂, k₂) = >>=-eq-ok (ok_or (checked_add p.bytes size) parse) _ k₁ in
    (
      ap (λ r. r.files) (sym (ok_inj k₂)) ∙ checked_add-ok p.files 1 e₁,
      ap (λ r. r.bytes) (sym (ok_inj k₂)) ∙ checked_add-ok p.bytes size e₂,
    )

no_file : (a : ℕ) → ltb 0 a ≡ false → a + 1 ≤ 1
no_file a h = ground arith

exceeds-IsBelow : (most : Option ℕ) (n : ℕ) → exceeds most n ≡ false → IsBelow most n
exceeds-IsBelow none n h = tt
exceeds-IsBelow (some most) n h = ground arith

limit_kept :
    (max_files max_bytes : Option ℕ) (held files bytes : ℕ)
    → (ltb 0 held && (exceeds max_files files || exceeds max_bytes bytes)) ≡ false
    → files ≡ held + 1
    → Fits (limit max_files max_bytes) files bytes
limit_kept max_files max_bytes held files bytes h e = elim (Bool-cases (ltb 0 held)) [
  | inr none_held ↦ inl (omega (arith, no_file held none_held))
  | inl some_held ↦
      let below = neither (exceeds max_files files) (exceeds max_bytes bytes) (rw some_held at h) in
      inr (exceeds-IsBelow max_files files below.0, exceeds-IsBelow max_bytes bytes below.1)
]

-- A file that is not one too many.
would_exceed-Fits :
    (p : FolderProgress) (mode : SolidMode) (size : ℕ)
    → would_exceed p mode size ≡ ok false
    → Fits mode (p.files + 1) (p.bytes + size)
unfolding would_exceed
would_exceed-Fits p solid size e = tt
would_exceed-Fits p non_solid size e = no_file p.files (ok_inj e)
would_exceed-Fits p (limit max_files max_bytes) size e =
    let (files, e₁, k₁) = >>=-eq-ok (ok_or (checked_add p.files 1) parse) _ e in
    let (bytes, e₂, k₂) = >>=-eq-ok (ok_or (checked_add p.bytes size) parse) _ k₁ in
    Fits-eq (limit max_files max_bytes) (checked_add-ok p.files 1 e₁)
      (checked_add-ok p.bytes size e₂)
      (limit_kept max_files max_bytes p.files files bytes (ok_inj k₂) (checked_add-ok p.files 1 e₁))

one_Fits : (mode : SolidMode) (size : ℕ) → Fits mode 1 size
one_Fits solid size = tt
one_Fits non_solid size = omega arith
one_Fits (limit max_files max_bytes) size = inl (omega arith)

pub zero_Fits : (mode : SolidMode) → Fits mode 0 0
zero_Fits solid = tt
zero_Fits non_solid = omega arith
zero_Fits (limit max_files max_bytes) = inl (omega arith)

zero_plus : (n : ℕ) → 0 + n ≡ n
zero_plus n = omega arith

-- The folder that is found for a file, and what it holds with the file.
found-Moved :
    (mode : SolidMode) (place found next : Place) (size : ℕ) (b : Bool) (q : FolderProgress)
    → ((b ≡ false) × (found ≡ place)) ⊎ ((b ≡ true) × (found ≡ (place.0 + 1, default_progress)))
    → would_exceed place.1 mode size ≡ ok b
    → (q.files ≡ found.1.files + 1) × (q.bytes ≡ found.1.bytes + size)
    → next ≡ (found.0, q)
    → Moved mode place 1 size next
unfolding Moved
found-Moved mode place found next size b q (inl (stays, e)) w (kf, kb) same =
    let files = ap (λ n. n.1.files) same ∙ kf ∙ ap (λ n. n.1.files + 1) e in
    let bytes = ap (λ n. n.1.bytes) same ∙ kb ∙ ap (λ n. n.1.bytes + size) e in
    (
      Fits-eq mode (sym files) (sym bytes) (would_exceed-Fits place.1 mode size (rw stays at w)),
      inl (ap (λ n. n.0) same ∙ ap (λ n. n.0) e, files, bytes),
    )
found-Moved mode place found next size b q (inr (moves, e)) w (kf, kb) same =
    let files = ap (λ n. n.1.files) same ∙ kf ∙ ap (λ n. n.1.files + 1) e in
    let bytes = ap (λ n. n.1.bytes) same ∙ kb ∙ ap (λ n. n.1.bytes + size) e ∙ zero_plus size in
    (
      Fits-eq mode (sym files) (sym bytes) (one_Fits mode size),
      inr (ap (λ n. n.0) same ∙ ap (λ n. n.0) e, files, bytes),
    )

place_sized-Moved :
    (mode : SolidMode) (place : Place) (size : ℕ) {next : Place}
    → place_sized mode place size ≡ ok next
    → Moved mode place 1 size next
place_sized-Moved mode place size e =
    let (b, e₁, k₁) = >>=-eq-ok (would_exceed place.1 mode size) _ e in
    let (found, e₂, k₂) = >>=-eq-ok (new_folder_if b place) _ k₁ in
    let (q, e₃, k₃) = >>=-eq-ok (record_size found.1 size) _ k₂ in
    found-Moved mode place found _ size b q (new_folder_if-Moves b place e₂) e₁
      (record_size-ok found.1 size e₃) (sym (ok_inj k₃))

no_stream-Moved :
    (mode : SolidMode) (place : Place) (b : Bool) {next : Place}
    → Fits mode place.1.files place.1.bytes
    → ((b ≡ false) × (next ≡ place)) ⊎ ((b ≡ true) × (next ≡ (place.0 + 1, default_progress)))
    → Moved mode place 0 0 next
unfolding Moved
no_stream-Moved mode place b fits (inl (stays, e)) =
    let files = ap (λ n. n.1.files) e in
    let bytes = ap (λ n. n.1.bytes) e in
    (Fits-eq mode (sym files) (sym bytes) fits, inl (ap (λ n. n.0) e, omega arith, omega arith))
no_stream-Moved mode place b fits (inr (moves, e)) =
    let files = ap (λ n. n.1.files) e in
    let bytes = ap (λ n. n.1.bytes) e in
    (Fits-eq mode (sym files) (sym bytes) (zero_Fits mode), inr (ap (λ n. n.0) e, files, bytes))

pub place_entry-Moved :
    (mode : SolidMode) (place : Place) (stream : WriteEntryStream) {next : Place}
    → Fits mode place.1.files place.1.bytes
    → place_entry mode place stream ≡ ok next
    → Moved mode place (stream_count stream) (stream_size stream) next
unfolding place_entry
place_entry-Moved mode place WriteEntryStream.empty fits e =
    no_stream-Moved mode place _ fits (new_folder_if-Moves _ place e)
place_entry-Moved mode place (buffered content) fits e =
    place_sized-Moved mode place (length content) e
place_entry-Moved mode place streaming fits e = cc
