-- ===== src/FilesInfo/Names/Written.antt =====
-- src/files_info.rs and src/entries.rs: names that are written are validated.
use r7z.Prelude.{
  ◌%◌, ◌≡◌, refl, ◌∙◌, Bool, true, false, not, List, [], ◌∷◌, ◌++◌, length, All, ok, err, arith,
  if◌then◌else◌, ◌==◌, Bool-cases, inl, inr,
}
use r7z.Errors.{invalid_options}
use r7z.Nom.{Bytes}
use r7z.FilesInfo.Names.{
  is_null, as_chunks, any_null, all_terminated, validate_name_data, from_utf16le, contains_null,
}
use r7z.FilesInfo.Names.Laws.{name_block, true_ne_false}

-- Whole code units, none of them null.
abbrev pub IsName : Bytes → Type 0
IsName [] = Unit {0}
IsName (a ∷ []) = true ≡ false
IsName (a ∷ b ∷ rest) = (is_null a b ≡ false) × IsName rest

no_null-IsName :
    (bytes : Bytes)
    → length bytes % 2 ≡ 0
    → contains_null (as_chunks bytes).0 ≡ false
    → IsName bytes
unfolding as_chunks
no_null-IsName [] even h = tt
no_null-IsName (a ∷ []) even h = absurd (omega (arith, even))
no_null-IsName (a ∷ b ∷ rest) even h = elim (Bool-cases (is_null a b)) [
  | inl hit ↦ absurd (true_ne_false (rw hit at h))
  | inr miss ↦ (miss, no_null-IsName rest (omega (arith, even)) (rw miss at h))
]

passed :
    (b c : Bool) (bytes name : Bytes)
    → (if not b then err invalid_options else if c then err invalid_options else ok bytes) ≡ ok name
    → (b ≡ true) × (c ≡ false) × (name ≡ bytes)
passed false c bytes name h = cc
passed true true bytes name h = cc
passed true false bytes name h = (refl, refl, cc)

-- A raw name that is accepted is whole code units, none of them null.
pub from_utf16le-IsName :
    (bytes name : Bytes) → from_utf16le bytes ≡ ok name → (name ≡ bytes) × IsName bytes
unfolding from_utf16le
from_utf16le-IsName bytes name h =
    let (even, clear, same) =
      passed (length bytes % 2 == 0) (contains_null (as_chunks bytes).0) bytes name h in
    (same, no_null-IsName bytes (ground arith) clear)

any_null-name :
    (name rest : Bytes)
    → IsName name
    → (any_null (as_chunks (name ++ (0 ∷ 0 ∷ rest))).0 ≡ (true, (as_chunks rest).0))
      × ((as_chunks (name ++ (0 ∷ 0 ∷ rest))).1 ≡ (as_chunks rest).1)
unfolding any_null as_chunks
any_null-name [] rest h = (refl, refl)
any_null-name (a ∷ []) rest h = absurd (true_ne_false h)
any_null-name (a ∷ b ∷ name) rest (miss, h) =
    let (found, odd) = any_null-name name rest h in (rw miss found, odd)

all_terminated-name_block :
    (names : List Bytes)
    → All IsName names
    → (all_terminated (length names) (as_chunks (name_block names)).0 ≡ (true, []))
      × ((as_chunks (name_block names)).1 ≡ [])
unfolding all_terminated as_chunks
all_terminated-name_block [] h = (refl, refl)
all_terminated-name_block (name ∷ names) (p, h) =
    let (found, odd) = any_null-name name (name_block names) p in
    let (rest, even) = all_terminated-name_block names h in (rw (found) rest, odd ∙ even)

-- A block of names, each with its end, is accepted for that number of files.
pub validate_name_data-name_block :
    (names : List Bytes) (error_input : Bytes)
    → All IsName names
    → validate_name_data (name_block names) (length names) error_input ≡ ok tt
unfolding validate_name_data
validate_name_data-name_block names error_input h =
    let (found, odd) = all_terminated-name_block names h in rw (found, odd) refl
