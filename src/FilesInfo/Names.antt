-- ===== src/FilesInfo/Names.antt =====
-- src/files_info.rs: the iterator over the names (`FilesInfoNameSlices`) and `validate_name_data`.
-- A name is its UTF-16LE bytes.
pub mod Laws
pub mod Written
use r7z.Prelude.{
  ℕ, zero, suc, ◌+◌, ◌-◌, ◌%◌, not, Bool, true, false, ◌&&◌, ◌||◌, Option, none, some, List, [],
  ◌∷◌, length, take, drop, Result, ok, err, if◌then◌else◌, leb, ◌==◌,
}
use r7z.Nom.{Bytes, ParseError, error, verify}
use r7z.Errors.{R7zError, invalid_options}

pub record NameSlices : Type 0 where
  pub name_data : Bytes
  pub count : ℕ
  pub position : ℕ
  pub index : ℕ

-- `bytes == [0, 0]`
abbrev pub is_null : ℕ → ℕ → Bool
is_null a b = (a == 0) && (b == 0)

-- `while self.position + 1 < self.data.len()`, where `rest` is `data[position..]`: where the null is
-- found, if it is, and the position behind the loop.
unfoldable pub find_null : ℕ → Bytes → Option ℕ × ℕ
find_null position [] = (none, position)
find_null position (a ∷ []) = (none, position)
find_null position (a ∷ b ∷ rest) =
    let further = find_null (position + 2) rest in
    if is_null a b then (some position, position + 2) else further

abbrev slice_to : NameSlices → Option ℕ × ℕ → Option (Option Bytes) × NameSlices
slice_to s (none, position) = (some none, record s { position = position })
slice_to s (some end, position) = (
  some (some (take (end - s.position) (drop s.position s.name_data))),
  record s { position = position },
)

-- `FilesInfoNameSlices::next`
abbrev next_slice : NameSlices → Option (Option Bytes) × NameSlices
next_slice s =
    if (length s.name_data == 0) || leb (length s.name_data) (s.position + 1)
    then (some none, s)
    else slice_to s (find_null s.position (drop s.position s.name_data))

unfoldable pub next : NameSlices → Option (Option Bytes) × NameSlices
unfolding find_null
next s = if leb s.count s.index then (none, s) else next_slice (record s { index = s.index + 1 })

-- `FilesInfo::name_slices`, for a number of files that fits a `usize`.
abbrev pub name_slices : Bytes → ℕ → NameSlices
name_slices name_data num_files = record {
  name_data = name_data;
  count = num_files;
  position = 0;
  index = 0;
}

-- `data.as_chunks::<2>()`: the code units, and the odd byte behind them.
unfoldable pub as_chunks : Bytes → List (ℕ × ℕ) × Bytes
as_chunks [] = ([], [])
as_chunks (a ∷ []) = ([], a ∷ [])
as_chunks (a ∷ b ∷ rest) = let (units, odd) = as_chunks rest in ((a, b) ∷ units, odd)

-- `code_units.any(|unit| *unit == [0, 0])` on the iterator: whether a null was found, and what is
-- left behind it.
unfoldable pub any_null : List (ℕ × ℕ) → Bool × List (ℕ × ℕ)
any_null [] = (false, [])
any_null ((a, b) ∷ units) =
    let further = any_null units in if is_null a b then (true, units) else further

-- `(0..num_names).all(|_| ..)`, which stops at the first name without an end.
unfoldable pub all_terminated : ℕ → List (ℕ × ℕ) → Bool × List (ℕ × ℕ)
unfolding any_null
all_terminated zero units = (true, units)
all_terminated (suc num) units =
    let (found, rest) = any_null units in
    let further = all_terminated num rest in if found then further else (false, rest)

abbrev is_empty {ℓ} : {A : Type ℓ} → List A → Bool
is_empty [] = true
is_empty (x ∷ xs) = false

abbrev pub names_complete : Bool × List (ℕ × ℕ) → Bytes → Bool
names_complete (every, rest) remainder = every && (is_empty rest && is_empty remainder)

unfoldable pub validate_name_data : Bytes → ℕ → Bytes → Result ParseError (Unit {0})
unfolding as_chunks all_terminated
validate_name_data name_data num_names error_input =
    let (units, remainder) = as_chunks name_data in
    if names_complete (all_terminated num_names units) remainder
    then ok tt
    else err (error error_input verify)

-- `contains(&[0, 0])`
abbrev pub contains_null : List (ℕ × ℕ) → Bool
contains_null [] = false
contains_null ((a, b) ∷ units) = is_null a b || contains_null units

-- `RawEntryName::from_utf16le` of src/entries.rs; the name is its bytes.
unfoldable pub from_utf16le : Bytes → Result R7zError Bytes
unfolding as_chunks
from_utf16le bytes =
    if not (length bytes % 2 == 0)
    then err invalid_options
    else if contains_null (as_chunks bytes).0
    then err invalid_options
    else ok bytes
