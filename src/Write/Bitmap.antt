-- ===== src/Write/Bitmap.antt =====
-- src/write/header.rs: `bools_to_bytes`, which packs flags into bytes, the first flag at the top.
pub mod Laws
use r7z.Prelude.{
  ℕ, ◌+◌, ◌-◌, ◌/◌, ◌%◌, ◌^◌, ◌<◌, ◌≡◌, bit_or, Bool, true, false, Option, none, some, List, [],
  ◌∷◌, length, get_elem?, set, replicate, if◌then◌else◌, div_ceil_8,
}
use r7z.Nom.{Bytes}

-- `out[idx / 8] |= 1 << (7 - idx % 8)`
abbrev pub or_into : ℕ → Option ℕ → Bytes → Bytes
or_into idx none out = out
or_into idx (some b) out = set out (idx / 8) (bit_or b (2 ^ (7 - idx % 8)))

abbrev pub set_bit : ℕ → Bytes → Bytes
set_bit idx out = or_into idx (get_elem? out (idx / 8)) out

-- The loop over the flags from index `idx` on.
unfoldable pub set_bits : ℕ → List Bool → Bytes → Bytes
set_bits idx [] out = out
set_bits idx (value ∷ values) out =
    set_bits (idx + 1) values (if value then set_bit idx out else out)

unfoldable pub bools_to_bytes : List Bool → Bytes
bools_to_bytes values = set_bits 0 values (replicate (div_ceil_8 (length values)) 0)
