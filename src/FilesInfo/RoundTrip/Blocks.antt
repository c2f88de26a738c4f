-- ===== src/FilesInfo/RoundTrip/Blocks.antt =====
-- src/write/header.rs and src/files_info.rs: each property block that is written, read in a run of
-- the loop. All bytes are those of one input inside the buffer.
use r7z.Prelude.{
  ℕ, ◌+◌, ◌*◌, ◌-◌, ◌<◌, ◌≡◌, ◌≢◌, refl, sym, ap, ◌∙◌, Bool, true, false, Option, none, some, List,
  [], ◌∷◌, ◌++◌, length, All, ok, ◌>>=◌, if◌then◌else◌, word_mod, arith, append_assoc,
  length-append, Bool-cases, inl, inr,
}
use mathlib.Core.Path.{subst}
use r7z.Nom.{Bytes}
use r7z.Packages.{Packages}
use r7z.Parsers.{sevenzip_varuint64_encode}
use r7z.Property.{Property}
use r7z.Property.Codes.{to_u8}
use r7z.Slice.{Slice, Within, bytes_subslice}
use r7z.Slice.Laws.{sub_slice_at, bytes_subslice-Within}
use r7z.Write.Bitmap.{bools_to_bytes}
use r7z.Write.Streams.Crcs.{any_some}
use r7z.Write.Files.{
  to_le_bytes, value_bytes, count_some, defined_bitmap, values_block, flags_block, optional_flags,
  any,
}
use r7z.FilesInfo.{FilesInfo, read_property, slice_of}
use r7z.FilesInfo.Seen.{is_masked}
use r7z.FilesInfo.Values.RoundTrip.{values_payload, length-to_le_bytes}
use r7z.FilesInfo.Runs.{Reads, run_skip, run_block}

-- The size in front of a block of values is that of the block.
length-value_bytes :
    (width : ℕ) (values : List (Option ℕ))
    → length (value_bytes width values) ≡ count_some values * width
unfolding value_bytes count_some
length-value_bytes width [] = omega arith
length-value_bytes width (none ∷ vs) = grind (arith, length-value_bytes width vs)
length-value_bytes width (some v ∷ vs) = grind (
  arith,
  length-append (to_le_bytes width v) (value_bytes width vs),
  length-to_le_bytes width v,
  length-value_bytes width vs,
)

length-values_payload :
    (width : ℕ) (values : List (Option ℕ))
    → 1 + length (defined_bitmap values) + 1 + count_some values * width
      ≡ length (values_payload width values)
unfolding values_payload
length-values_payload width values = omega (
  arith,
  length-append (defined_bitmap values) (0 ∷ value_bytes width values),
  length-value_bytes width values,
)

-- A part of the input and where it ends.
pub record Rest (orig : Bytes) (bytes : Bytes) : Type 0 where
  pub front : Bytes
  pub splits : orig ≡ front ++ bytes

pub behind : (orig a b : Bytes) → Rest orig (a ++ b) → Rest orig b
behind orig a b r = record {
  front = r.front ++ a;
  splits = r.splits ∙ sym (append_assoc r.front a b);
}

-- A tag, a size and a block.
abbrev pub block_bytes : ℕ → Bytes → Bytes → Bytes
block_bytes tag block after = tag ∷ (sevenzip_varuint64_encode (length block) ++ (block ++ after))

pub behind_block :
    (orig : Bytes) (tag : ℕ) (block after : Bytes)
    → Rest orig (block_bytes tag block after)
    → Rest orig (block ++ after)
behind_block orig tag block after =
    behind orig (tag ∷ sevenzip_varuint64_encode (length block)) (block ++ after)

-- The address behind the last byte.
abbrev pub finish : Slice → ℕ
finish s = s.ptr + length s.bytes

module _ (backing orig : Slice) (inside : Within backing orig) where
  pub block-Within :
      (block after : Bytes)
      → Rest orig.bytes (block ++ after)
      → Within backing (slice_of (finish orig) (block ++ after) block)
  block-Within block after r =
      sub_slice_at backing orig (finish orig - length (block ++ after)) r.front block after inside
        r.splits (omega (arith, ap length r.splits, length-append r.front (block ++ after)))

  pub block_fits :
      (block after : Bytes) → Rest orig.bytes (block ++ after) → length block < word_mod
  block_fits block after r = omega (
    arith,
    inside.addressable,
    ap length inside.same_bytes,
    length-append inside.before (orig.bytes ++ inside.after),
    length-append orig.bytes inside.after,
    ap length r.splits,
    length-append r.front (block ++ after),
    length-append block after,
  )

-- A block of values is its tag, its size and the payload.
values_block-payload :
    (width tag : ℕ) (values : List (Option ℕ)) (after : Bytes)
    → any_some values ≡ true
    → values_block width tag values ++ after ≡ block_bytes tag (values_payload width values) after
unfolding values_block values_payload
values_block-payload width tag values after any =
    rw (any, length-values_payload width values)
      (ap (λ t. tag ∷ t)
        (append_assoc (sevenzip_varuint64_encode (length (values_payload width values)))
          (values_payload width values) after))

values_block-absent :
    (width tag : ℕ) (values : List (Option ℕ)) (after : Bytes)
    → any_some values ≡ false
    → values_block width tag values ++ after ≡ after
unfolding values_block
values_block-absent width tag values after any = rw any refl

flags_block-bitmap :
    (tag : ℕ) (flags : List Bool) (after : Bytes)
    → flags_block tag flags ++ after ≡ block_bytes tag (bools_to_bytes flags) after
flags_block-bitmap tag flags after =
    ap (λ t. tag ∷ t)
      (append_assoc (sevenzip_varuint64_encode (length (bools_to_bytes flags)))
        (bools_to_bytes flags) after)

-- What a property that may be left out holds.
abbrev pub optional_values : List (Option ℕ) → List (Option ℕ)
optional_values values = if any_some values then values else []

abbrev pub optional_bits : List Bool → Bytes
optional_bits flags = if any flags then bools_to_bytes flags else []

module _ ⦃pk : Packages⦄ (backing orig : Slice) (inside : Within backing orig)
    (external_data : List Bytes) (n : ℕ) (tag : Property) (masked : is_masked tag ≡ true)
    {tags : List Property} (apart : All (λ t. to_u8 tag ≢ to_u8 t) tags) {after rest : Bytes}
    {files' : FilesInfo} where
  -- A property that is written as a block.
  pub block_run :
      (block : Bytes) {files files₁ : FilesInfo}
      → ((inp : Bytes) (ptr : ℕ)
          → Within backing (record { ptr = ptr; bytes = block })
          → read_property n backing external_data tag inp
              (record { ptr = ptr; bytes = block })
              files
            ≡ ok files₁)
      → Rest orig.bytes (block_bytes (to_u8 tag) block after)
      → Reads n backing external_data (finish orig) after files₁ tags rest files'
      → Reads n backing external_data
          (finish orig)
          (block_bytes (to_u8 tag) block after)
          files
          (tag ∷ tags)
          rest
          files'
  block_run block reads r later =
      let rest_of = behind_block orig.bytes (to_u8 tag) block after r in
      run_block n backing external_data (finish orig) tag block masked
        (block_fits backing orig inside block after rest_of) apart
        (λ inp.
          reads inp (finish orig - length (block ++ after))
            (block-Within backing orig inside block after rest_of))
        later

  -- A block of values of a width, for a reader that reads its payload back.
  pub values_run :
      (width : ℕ) (values : List (Option ℕ)) {files : FilesInfo}
      (store : List (Option ℕ) → FilesInfo)
      → store [] ≡ files
      → ((inp : Bytes) (ptr : ℕ)
          → Within backing (record { ptr = ptr; bytes = values_payload width values })
          → read_property n backing external_data tag inp
              (record { ptr = ptr; bytes = values_payload width values })
              files
            ≡ ok (store values))
      → Rest orig.bytes (values_block width (to_u8 tag) values ++ after)
      → Reads n backing external_data
          (finish orig)
          after
          (store (optional_values values))
          tags
          rest
          files'
      → Reads n backing external_data
          (finish orig)
          (values_block width (to_u8 tag) values ++ after)
          files
          (tag ∷ tags)
          rest
          files'
  values_run width values {files} store same reads r later = elim (Bool-cases (any_some values)) [
    | inl present ↦
        let shape = values_block-payload width (to_u8 tag) values after present in
        rw shape (
          block_run (values_payload width values) reads (subst (Rest orig.bytes) shape r)
            (rw present at later))
    | inr absent ↦
        rw (values_block-absent width (to_u8 tag) values after absent, ← same)
          (run_skip n backing external_data (finish orig) tag (rw absent at later))
  ]

  -- A bitmap, for a property that keeps the view of its block.
  pub flags_run :
      (flags : List Bool) {files : FilesInfo} (store : Bytes → FilesInfo)
      → store [] ≡ files
      → ((inp : Bytes) (block : Slice)
          → read_property n backing external_data tag inp block files
            ≡ (bytes_subslice backing block inp >>= λ bitmap. ok (store bitmap)))
      → Rest orig.bytes (optional_flags (to_u8 tag) flags ++ after)
      → Reads n backing external_data
          (finish orig)
          after
          (store (optional_bits flags))
          tags
          rest
          files'
      → Reads n backing external_data
          (finish orig)
          (optional_flags (to_u8 tag) flags ++ after)
          files
          (tag ∷ tags)
          rest
          files'
  flags_run flags {files} store same reads r later = elim (Bool-cases (any flags)) [
    | inl present ↦
        let shape : optional_flags (to_u8 tag) flags ++ after
            ≡ block_bytes (to_u8 tag) (bools_to_bytes flags) after =
          rw present (flags_block-bitmap (to_u8 tag) flags after) in
        rw shape (
          block_run (bools_to_bytes flags)
            (λ inp ptr w.
              reads inp (record { ptr = ptr; bytes = bools_to_bytes flags })
              ∙ rw
                  (bytes_subslice-Within backing
                    (record { ptr = ptr; bytes = bools_to_bytes flags }) inp w)
                  refl)
            (subst (Rest orig.bytes) shape r) (rw present at later))
    | inr absent ↦
        let shape : optional_flags (to_u8 tag) flags ++ after ≡ after = rw absent refl in
        rw (shape, ← same) (run_skip n backing external_data (finish orig) tag (rw absent at later))
  ]
