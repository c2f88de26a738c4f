-- ===== src/Write/Streams/Crcs.antt =====
-- src/write/header.rs: `write_optional_crcs`, the digest block in front of a list of streams.
use r7z.Prelude.{
  ℕ, ◌/◌, ◌%◌, Bool, true, false, ◌||◌, ◌&&◌, Option, none, some, List, [], ◌∷◌, ◌++◌,
  if◌then◌else◌,
}
use r7z.Nom.{Bytes}
use r7z.Write.Bitmap.{bools_to_bytes}

-- `Option::is_some` over the digests: any, all, and one flag for each.
abbrev pub is_some : Option ℕ → Bool
is_some none = false
is_some (some _) = true

abbrev pub any_some : List (Option ℕ) → Bool
any_some [] = false
any_some (c ∷ cs) = is_some c || any_some cs

abbrev pub all_some : List (Option ℕ) → Bool
all_some [] = true
all_some (c ∷ cs) = is_some c && all_some cs

abbrev pub defined_flags : List (Option ℕ) → List Bool
defined_flags [] = []
defined_flags (c ∷ cs) = is_some c ∷ defined_flags cs

-- `crc.to_le_bytes()` of a `u32`
abbrev pub to_le_bytes32 : ℕ → Bytes
to_le_bytes32 v = v % 256 ∷ v / 256 % 256 ∷ v / 65_536 % 256 ∷ v / 16_777_216 % 256 ∷ []

-- `for crc in crcs.iter().flatten()`
unfoldable pub crc_bytes : List (Option ℕ) → Bytes
crc_bytes [] = []
crc_bytes (none ∷ cs) = crc_bytes cs
crc_bytes (some crc ∷ cs) = to_le_bytes32 crc ++ crc_bytes cs

unfoldable pub write_optional_crcs : List (Option ℕ) → Bytes
write_optional_crcs crcs =
    if any_some crcs
    then 0x0a
      ∷ (if all_some crcs then 1 else 0)
      ∷ ((if all_some crcs then [] else bools_to_bytes (defined_flags crcs)) ++ crc_bytes crcs)
    else []
