-- ===== src/FilesInfo/Values.antt =====
-- src/files_info.rs: the payload of a property, in the block or in an external stream
-- (`property_data`), and the values that are defined for some of the files (`DefinedProperty`,
-- `parse_defined_u64_values`, `parse_defined_u32_values`). A part of a block keeps its address.
pub mod RoundTrip
use r7z.Prelude.{
  ℕ, zero, suc, ◌+◌, ◌*◌, ◌/◌, ◌%◌, Bool, Option, none, some, List, [], ◌∷◌, length, take, drop,
  get_elem?, Result, ok, err, ◌>>=◌, ◌>>◌, ok_or, map_err, if◌then◌else◌, ◌==◌, ltb, leb, try_usize,
  div_ceil_8,
}
use r7z.Nom.{Bytes, ParseError, error, eof, verify, too_large}
use r7z.Parsers.{sevenzip_varuint64_decode}
use r7z.Digests.{is_defined}
use r7z.Slice.{Slice, bytes_subslice}

-- `slice.split_first()`
abbrev pub split_first : Slice → Option (ℕ × Slice)
split_first s = elim s.bytes [
  | [] ↦ none
  | b ∷ rest ↦ some (b, record { ptr = s.ptr + 1; bytes = rest })
]

-- `slice.split_at_checked(n)`
abbrev pub split_at_checked : ℕ → Slice → Option (Bytes × Slice)
split_at_checked n s =
    if leb n (length s.bytes)
    then some (take n s.bytes, record { ptr = s.ptr + n; bytes = drop n s.bytes })
    else none

-- `if !remaining.is_empty()`
abbrev pub expect_end : Bytes → Bytes → Result ParseError (Unit {0})
expect_end error_input [] = ok tt
expect_end error_input (b ∷ bs) = err (error error_input verify)

unfoldable pub external_property_data : Bytes → Bytes → List Bytes → Result ParseError Bytes
external_property_data error_input index_bytes external_data = do
  (remaining, index) ←
      map_err (λ _. error error_input verify) (sevenzip_varuint64_decode index_bytes)
  expect_end error_input remaining
  index ← ok_or (try_usize index) (error error_input too_large)
  ok_or (get_elem? external_data index) (error error_input eof)

-- `match external`
abbrev pub select_data : Bytes → ℕ → Slice → Slice → List Bytes → Result ParseError Bytes
select_data error_input external part backing external_data =
    if external == 0
    then bytes_subslice backing part error_input
    else external_property_data error_input part.bytes external_data

unfoldable pub property_data : Bytes → Slice → Slice → List Bytes → Result ParseError Bytes
unfolding external_property_data
property_data error_input payload backing external_data = do
  (external, part) ← ok_or (split_first payload) (error error_input eof)
  select_data error_input external part backing external_data

pub record DefinedProperty : Type 0 where
  pub all_defined : ℕ
  pub bitmap : Bytes
  pub values : Bytes

-- `DefinedProperty::parse`
unfoldable pub parse_defined :
    Bytes → Slice → ℕ → Slice → List Bytes → Result ParseError DefinedProperty
unfolding property_data
parse_defined error_input block num_values backing external_data = do
  (all_defined, payload) ← ok_or (split_first block) (error error_input eof)
  (bitmap, payload) ←
      ok_or (split_at_checked (if all_defined == 0 then div_ceil_8 num_values else 0) payload)
        (error error_input eof)
  values ← property_data error_input payload backing external_data
  ok (record { all_defined = all_defined; bitmap = bitmap; values = values })

-- `from_le_bytes` of as many bytes as there are.
unfoldable pub from_le_bytes : Bytes → ℕ
from_le_bytes [] = 0
from_le_bytes (b ∷ bs) = b + 256 * from_le_bytes bs

-- The loop over the indices from `index` on, for values of `width` bytes; `rest` is `data[pos..]`.
unfoldable pub values_loop :
    ℕ → Bytes → ℕ → Bytes → ℕ → ℕ → Bytes → Result ParseError (Bytes × List (Option ℕ))
unfolding from_le_bytes
values_loop width error_input all_defined bitmap index zero rest = ok (rest, [])
values_loop width error_input all_defined bitmap index (suc num) rest =
    let defined =
      values_loop width error_input all_defined bitmap (index + 1) num (drop width rest) in
    let absent = values_loop width error_input all_defined bitmap (index + 1) num rest in
    if is_defined all_defined bitmap index
    then (if ltb (length rest) width
        then err (error error_input eof)
        else (defined >>= λ (rest', values).
            ok (rest', some (from_le_bytes (take width rest)) ∷ values)))
    else (absent >>= λ (rest', values). ok (rest', none ∷ values))

-- `if pos != data.len()`
abbrev pub all_read : Bytes → Bytes × List (Option ℕ) → Result ParseError (List (Option ℕ))
all_read error_input ([], values) = ok values
all_read error_input (b ∷ bs, values) = err (error error_input verify)

-- `Vec::with_capacity` panics on 2^59 values or more, which is not modelled.
unfoldable pub parse_defined_u64_values :
    Bytes → ℕ → Bytes → Bytes → ℕ → Result ParseError (List (Option ℕ))
unfolding values_loop
parse_defined_u64_values error_input all_defined bitmap bytes num_values =
    values_loop 8 error_input all_defined bitmap 0 num_values bytes >>= all_read error_input

unfoldable pub parse_defined_u32_values :
    Bytes → ℕ → Bytes → Bytes → ℕ → Result ParseError (List (Option ℕ))
unfolding values_loop
parse_defined_u32_values error_input all_defined bitmap bytes num_values =
    values_loop 4 error_input all_defined bitmap 0 num_values bytes >>= all_read error_input
