-- ===== src/FilesInfo/Values/RoundTrip.antt =====
-- src/files_info.rs and src/write/header.rs: the times, start positions and attributes that are
-- written, read back.
use r7z.Prelude.{
  ℕ, zero, suc, ◌+◌, ◌/◌, ◌^◌, ◌<◌, ◌≡◌, refl, sym, ◌∙◌, ap, true, false, Option, none, some, List,
  [], ◌∷◌, ◌++◌, length, All, take, drop, append_assoc, ok, ◌>>=◌, if◌then◌else◌, arith, ltb,
  Bool-cases, inl, inr, div_ceil_8, leb, ◌==◌, append-nil, length-append, take-append, drop-append,
}
use native.Mathlib.Nat.{pow-suc}
use r7z.Nom.{Bytes}
use r7z.Slice.{Slice, Within, bytes_subslice}
use r7z.Slice.Laws.{bytes_subslice-Within, sub_slice_at}
use r7z.Digests.RoundTrip.{Agrees, all_some-Agrees, flags-Agrees, length-flags, packed}
use r7z.Write.Bitmap.{bools_to_bytes}
use r7z.Write.Streams.Crcs.{all_some, defined_flags}
use r7z.Write.Files.{to_le_bytes, value_bytes, defined_bitmap}
use r7z.FilesInfo.Values.{
  parse_defined, property_data, from_le_bytes, values_loop, all_read, parse_defined_u64_values,
  parse_defined_u32_values, DefinedProperty, split_at_checked,
}

pub length-to_le_bytes : (width v : ℕ) → length (to_le_bytes width v) ≡ width
unfolding to_le_bytes
length-to_le_bytes zero v = refl
length-to_le_bytes (suc width) v = ap suc (length-to_le_bytes width (v / 256))

pub from_le_bytes-to_le_bytes :
    (width v : ℕ) → v < 256 ^ width → from_le_bytes (to_le_bytes width v) ≡ v
unfolding from_le_bytes to_le_bytes
from_le_bytes-to_le_bytes zero v h = omega arith
from_le_bytes-to_le_bytes (suc width) v h = omega (
  arith,
  pow-suc 256 width,
  from_le_bytes-to_le_bytes width (v / 256) (omega (arith, pow-suc 256 width)),
)

-- A value that is present fits the width.
abbrev pub Fits : ℕ → Option ℕ → Type 0
Fits width none = Unit {0}
Fits width (some v) = v < 256 ^ width

-- Room for a value that stands in front.
room : (width v : ℕ) (rest : Bytes) → ltb (length (to_le_bytes width v ++ rest)) width ≡ false
room width v rest =
    ground (arith, length-append (to_le_bytes width v) rest, length-to_le_bytes width v)

taken :
    (width v : ℕ) (rest : Bytes) → take width (to_le_bytes width v ++ rest) ≡ to_le_bytes width v
taken width v rest =
    ap (λ n. take n (to_le_bytes width v ++ rest)) (sym (length-to_le_bytes width v))
    ∙ take-append (to_le_bytes width v) rest

dropped : (width v : ℕ) (rest : Bytes) → drop width (to_le_bytes width v ++ rest) ≡ rest
dropped width v rest =
    ap (λ n. drop n (to_le_bytes width v ++ rest)) (sym (length-to_le_bytes width v))
    ∙ drop-append (to_le_bytes width v) rest

values_loop-value_bytes :
    (width : ℕ) (inp : Bytes) (all_defined index : ℕ) (bitmap rest : Bytes)
    (values : List (Option ℕ))
    → All (Fits width) values
    → Agrees all_defined bitmap index values
    → values_loop width inp all_defined bitmap index
        (length values)
        (value_bytes width values ++ rest)
      ≡ ok (rest, values)
unfolding values_loop value_bytes
values_loop-value_bytes width inp all_defined index bitmap rest [] h a = refl
values_loop-value_bytes width inp all_defined index bitmap rest (none ∷ vs) (_, h) (d, a) =
    rw (d, values_loop-value_bytes width inp all_defined (index + 1) bitmap rest vs h a)
values_loop-value_bytes width inp all_defined index bitmap rest (some v ∷ vs) (fits, h) (d, a) =
    rw (
      d,
      append_assoc (to_le_bytes width v) (value_bytes width vs) rest,
      room width v (value_bytes width vs ++ rest),
      taken width v (value_bytes width vs ++ rest),
      dropped width v (value_bytes width vs ++ rest),
      from_le_bytes-to_le_bytes width v fits,
      values_loop-value_bytes width inp all_defined (index + 1) bitmap rest vs h a,
    )

-- What stands behind the size of a property block.
unfoldable pub values_payload : ℕ → List (Option ℕ) → Bytes
values_payload width values =
    (if all_some values then 1 else 0)
    ∷ (defined_bitmap values ++ (0x00 ∷ value_bytes width values))

abbrev flag_byte : List (Option ℕ) → ℕ
flag_byte values = if all_some values then 1 else 0

bitmap_length :
    (values : List (Option ℕ))
    → (if flag_byte values == 0 then div_ceil_8 (length values) else 0)
      ≡ length (defined_bitmap values)
bitmap_length values = elim (Bool-cases (all_some values)) [
  | inl all ↦ rw all refl
  | inr absent ↦ rw absent (sym (length-flags values))
]

split_at-append :
    (ptr : ℕ) (front back : Bytes)
    → split_at_checked (length front) (record { ptr = ptr; bytes = front ++ back })
      ≡ some (front, record { ptr = ptr + length front; bytes = back })
split_at-append ptr front back =
    let fits : leb (length front) (length (front ++ back)) ≡ true =
      ground (arith, length-append front back) in
    rw (fits, take-append front back, drop-append front back) refl

module _ (backing : Slice) (external_data : List Bytes) (inp : Bytes) (ptr width : ℕ)
    (values : List (Option ℕ))
    (within : Within backing (record { ptr = ptr; bytes = values_payload width values })) where
  -- The payload behind the flag byte shows its bytes.
  shown :
      bytes_subslice backing
        (record {
          ptr = ptr + 1 + length (defined_bitmap values) + 1;
          bytes = value_bytes width values;
        })
        inp
      ≡ ok (value_bytes width values)
  unfolding values_payload
  shown = bytes_subslice-Within backing _ inp (
      sub_slice_at backing (record { ptr = ptr; bytes = values_payload width values })
        (ptr + 1 + length (defined_bitmap values) + 1)
        (flag_byte values ∷ (defined_bitmap values ++ (0 ∷ []))) (value_bytes width values) []
        within
        (ap (λ t. flag_byte values ∷ t)
          (rw (append-nil (value_bytes width values))
            (sym (append_assoc (defined_bitmap values) (0 ∷ []) (value_bytes width values)))))
        (omega (arith, length-append (defined_bitmap values) (0 ∷ []))))

  -- The property as the parser holds it.
  abbrev defined : DefinedProperty
  defined = record {
    all_defined = flag_byte values;
    bitmap = defined_bitmap values;
    values = value_bytes width values;
  }

  parse_defined-values_payload :
      parse_defined inp
        (record { ptr = ptr; bytes = values_payload width values })
        (length values)
        backing
        external_data
      ≡ ok defined
  unfolding parse_defined property_data values_payload
  parse_defined-values_payload =
      rw
        (
          bitmap_length values,
          split_at-append (ptr + 1) (defined_bitmap values) (0 ∷ value_bytes width values),
          shown,
        )
        refl

-- The flags of a written table are read as the values say.
defined-Agrees :
    (values : List (Option ℕ)) → Agrees (flag_byte values) (defined_bitmap values) 0 values
defined-Agrees values = elim (Bool-cases (all_some values)) [
  | inl all ↦ rw all (all_some-Agrees 0 values all)
  | inr absent ↦
      rw absent (flags-Agrees (bools_to_bytes (defined_flags values)) 0 values (packed values))
]

read_back :
    (width : ℕ) (inp : Bytes) (values : List (Option ℕ))
    → All (Fits width) values
    → (values_loop width inp
          (flag_byte values)
          (defined_bitmap values)
          0
          (length values)
          (value_bytes width values)
        >>= all_read inp)
      ≡ ok values
read_back width inp values fits =
    ap (λ r. r >>= all_read inp)
      (ap (values_loop width inp (flag_byte values) (defined_bitmap values) 0 (length values))
          (sym (append-nil (value_bytes width values)))
        ∙ values_loop-value_bytes width inp (flag_byte values) 0 (defined_bitmap values) [] values
            fits (defined-Agrees values))

module _ (backing : Slice) (external_data : List Bytes) (inp : Bytes) (ptr : ℕ)
    (values : List (Option ℕ)) where
  -- Times and start positions of 64 bits: the block that is written, at its address inside the
  -- buffer, is read back as the values.
  pub parse_defined_u64_values-values_payload :
      Within backing (record { ptr = ptr; bytes = values_payload 8 values })
      → All (Fits 8) values
      → (parse_defined inp
            (record { ptr = ptr; bytes = values_payload 8 values })
            (length values)
            backing
            external_data
          >>= λ p. parse_defined_u64_values inp p.all_defined p.bitmap p.values (length values))
        ≡ ok values
  unfolding parse_defined_u64_values
  parse_defined_u64_values-values_payload within fits =
      rw (parse_defined-values_payload backing external_data inp ptr 8 values within)
        (read_back 8 inp values fits)

  -- The same for the attributes of 32 bits.
  pub parse_defined_u32_values-values_payload :
      Within backing (record { ptr = ptr; bytes = values_payload 4 values })
      → All (Fits 4) values
      → (parse_defined inp
            (record { ptr = ptr; bytes = values_payload 4 values })
            (length values)
            backing
            external_data
          >>= λ p. parse_defined_u32_values inp p.all_defined p.bitmap p.values (length values))
        ≡ ok values
  unfolding parse_defined_u32_values
  parse_defined_u32_values-values_payload within fits =
      rw (parse_defined-values_payload backing external_data inp ptr 4 values within)
        (read_back 4 inp values fits)
