-- ===== src/FilesInfo/Scan.antt =====
-- src/files_info.rs: `scan_files_info_with_external`, which walks over the block without keeping it.
pub mod Laws
use r7z.Prelude.{
  ℕ, zero, suc, ◌+◌, ◌-◌, Bool, true, false, not, ◌||◌, Option, none, some, [], ◌∷◌, get_elem?, ok,
  ◌>>=◌, ◌>>◌, ok_or, if◌then◌else◌, ◌==◌, try_usize, checked_sub, div_ceil_8, word_mod,
}
use r7z.Nom.{Bytes, IResult, error, too_large}
use r7z.Packages.{Packages}
use r7z.Parsers.{sevenzip_varuint64_decode}
use r7z.Property
use r7z.Property.{Property, files_info}
use r7z.Sections.{read_sections}
use r7z.PackInfo.{expect_tag}

-- `block.first().copied()`
abbrev pub first : Bytes → Option ℕ
first [] = none
first (b ∷ bs) = some b

-- `layout_start`, one past the index of the external flag.
abbrev layout_start : ℕ → Option ℕ → ℕ
layout_start num_files none = word_mod - 1
layout_start num_files (some all_defined) = if all_defined == 0 then 2 + div_ceil_8 num_files else 2

abbrev get_at : Bytes → Option ℕ → Option ℕ
get_at block none = none
get_at block (some index) = get_elem? block index

abbrev defined_flag : ℕ → Bytes → Option ℕ
defined_flag num_files block = get_at block (checked_sub (layout_start num_files (first block)) 1)

-- `external_flag`
unfoldable pub external_flag : ℕ → Property → Bytes → Option ℕ
external_flag num_files Property.name block = first block
external_flag num_files Property.ctime block = defined_flag num_files block
external_flag num_files Property.atime block = defined_flag num_files block
external_flag num_files Property.mtime block = defined_flag num_files block
external_flag num_files Property.start_pos block = defined_flag num_files block
external_flag num_files Property.attributes block = defined_flag num_files block
external_flag num_files tag block = none

-- `external_flag.is_some_and(|flag| flag != 0)`
abbrev pub flag_set : Option ℕ → Bool
flag_set none = false
flag_set (some flag) = not (flag == 0)

module _ ⦃pk : Packages⦄ where
  unfoldable pub scan_property : ℕ → Property → Bytes → Bool → IResult Bool
  unfolding external_flag
  scan_property num_files tag input uses_external_data = do
    (rest, size) ← sevenzip_varuint64_decode input
    size ← ok_or (try_usize size) (error input too_large)
    (rest, block) ← pk.take_complete size rest
    ok (rest, uses_external_data || flag_set (external_flag num_files tag block))

  unfoldable pub scan_files_info_with_external : Bytes → IResult (ℕ × Bool)
  unfolding scan_property
  scan_files_info_with_external orig = do
    (input, tag) ← Property.parse orig
    expect_tag orig files_info tag
    (input, num_files) ← sevenzip_varuint64_decode input
    n ← ok_or (try_usize num_files) (error input too_large)
    (input, uses_external_data) ← read_sections (scan_property n) input false
    ok (input, (num_files, uses_external_data))
