-- ===== src/FilesInfo/Seen.antt =====
-- src/files_info.rs: `SeenFileProperties`, the mask of the properties that were seen.
pub mod Laws
use r7z.Prelude.{
  ℕ, ◌^◌, Bool, true, false, Option, none, some, Result, ok, err, bit_and, bit_or, if◌then◌else◌,
  ◌==◌,
}
use r7z.Nom.{Bytes, ParseError, error, verify}
use r7z.Property
use r7z.Property.{Property}
use r7z.Property.Codes.{to_u8}

-- The arms of `match tag` that have a mask.
abbrev pub is_masked : Property → Bool
is_masked Property.name = true
is_masked Property.ctime = true
is_masked Property.atime = true
is_masked Property.mtime = true
is_masked Property.start_pos = true
is_masked Property.attributes = true
is_masked Property.empty_stream = true
is_masked Property.empty_file = true
is_masked Property.anti = true
is_masked _ = false

-- `1u32 << tag as u8`; the codes are below 32.
unfoldable pub property_mask : Property → Option ℕ
unfolding to_u8
property_mask tag = if is_masked tag then some (2 ^ to_u8 tag) else none

abbrev pub register_mask : ℕ → Bytes → Option ℕ → Result ParseError ℕ
register_mask seen input none = ok seen
register_mask seen input (some mask) =
    if bit_and seen mask == 0 then ok (bit_or seen mask) else err (error input verify)

-- `SeenFileProperties::register`: the mask behind the call.
unfoldable pub register : ℕ → Property → Bytes → Result ParseError ℕ
unfolding property_mask
register seen tag input = register_mask seen input (property_mask tag)
