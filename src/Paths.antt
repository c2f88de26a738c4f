-- ===== src/Paths.antt =====
-- src/archive.rs: `safe_archive_name`, which makes a relative path of an entry's name. A `&str` is
-- its UTF-8 bytes, in which the characters tested for stand for themselves; a `PathBuf` is the
-- list of the parts pushed onto it, as a Unix target keeps them.
pub mod Parts
pub mod Laws
pub mod Accepts
use r7z.Prelude.{
  ℕ, Bool, true, false, ◌&&◌, ◌||◌, ◌==◌, leb, List, [], ◌∷◌, ◌++◌, Result, ok, err, ◌>>=◌,
  if◌then◌else◌,
}
use r7z.Nom.{Bytes}
use r7z.Errors.{R7zError, unsafe_path}

abbrev pub PathBuf : Type 0
PathBuf = List Bytes

abbrev pub is_separator : ℕ → Bool
is_separator c = (c == 47) || (c == 92)

abbrev pub push_first : ℕ → List Bytes → List Bytes
push_first c [] = (c ∷ []) ∷ []
push_first c (part ∷ parts) = (c ∷ part) ∷ parts

-- `name.split(['/', '\\'])`.
unfoldable pub split : Bytes → List Bytes
split [] = [] ∷ []
split (c ∷ rest) =
    let parts = split rest in if is_separator c then [] ∷ parts else push_first c parts

-- `""` and `"."`.
abbrev pub is_skipped : Bytes → Bool
is_skipped [] = true
is_skipped (a ∷ []) = a == 46
is_skipped (a ∷ b ∷ rest) = false

-- `".."`.
abbrev pub is_parent : Bytes → Bool
is_parent [] = false
is_parent (a ∷ []) = false
is_parent (a ∷ b ∷ []) = (a == 46) && (b == 46)
is_parent (a ∷ b ∷ c ∷ rest) = false

abbrev pub any_parent : List Bytes → Bool
any_parent [] = false
any_parent (part ∷ parts) = is_parent part || any_parent parts

abbrev pub has_parent_component : Bytes → Bool
has_parent_component name = any_parent (split name)

abbrev is_ascii_alphabetic : ℕ → Bool
is_ascii_alphabetic c = (leb 65 c && leb c 90) || (leb 97 c && leb c 122)

unfoldable pub has_windows_prefix : Bytes → Bool
has_windows_prefix [] = false
has_windows_prefix (a ∷ []) = false
has_windows_prefix (a ∷ b ∷ rest) = (is_ascii_alphabetic a && (b == 58)) || ((a == 92) && (b == 92))

-- `name.contains('\0')`.
abbrev pub any_zero : Bytes → Bool
any_zero [] = false
any_zero (c ∷ rest) = (c == 0) || any_zero rest

-- `name.starts_with(['/', '\\'])`.
abbrev pub starts_separated : Bytes → Bool
starts_separated [] = false
starts_separated (c ∷ rest) = is_separator c

abbrev pub is_empty : Bytes → Bool
is_empty [] = true
is_empty (c ∷ rest) = false

abbrev pub push_part : PathBuf → Bytes → Result R7zError PathBuf
push_part normalized part =
    if is_skipped part
    then ok normalized
    else if is_parent part
    then err unsafe_path
    else ok (normalized ++ (part ∷ []))

abbrev pub push_parts : PathBuf → List Bytes → Result R7zError PathBuf
push_parts normalized [] = ok normalized
push_parts normalized (part ∷ parts) = push_part normalized part >>= λ n. push_parts n parts

abbrev pub not_empty : PathBuf → Result R7zError PathBuf
not_empty [] = err unsafe_path
not_empty (part ∷ parts) = ok (part ∷ parts)

unfoldable pub is_refused : Bytes → Bool
is_refused name =
    is_empty name
    || (any_zero name
        || (starts_separated name || (has_windows_prefix name || has_parent_component name)))

unfoldable pub safe_archive_name : Bytes → Result R7zError PathBuf
safe_archive_name name =
    if is_refused name then err unsafe_path else (push_parts [] (split name) >>= not_empty)
