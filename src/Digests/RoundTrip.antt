-- ===== src/Digests/RoundTrip.antt =====
-- src/write/header.rs and src/pack_info.rs: the digest tables of `write_optional_crcs`, read with
-- `parse_digests`.
use r7z.Prelude.{
  ℕ, suc, ◌+◌, ◌^◌, ◌<◌, ◌≡◌, refl, ◌∙◌, ap, true, false, Option, none, some, List, [], ◌∷◌, ◌++◌,
  length, All, append_assoc, ok, ◌>>=◌, if◌then◌else◌, arith, Bool-cases, inl, inr, div_ceil_8,
}
use r7z.Nom.{Bytes, IResult}
use r7z.Packages.{Packages}
use r7z.Packages.Laws.{take_complete-append}
use r7z.Parsers.{bitmap_is_set}
use r7z.Property
use r7z.Property.{Property}
use r7z.Property.Codes.{to_u8}
use r7z.Property.Laws.{parse-to_u8}
use r7z.Digests.{is_defined, parse_bitmap, read_crcs, parse_digests}
use r7z.Write.Bitmap.{bools_to_bytes}
use r7z.Write.Bitmap.Laws.{flag, bitmap_is_set-bools_to_bytes, bools_to_bytes-shape}
use r7z.Write.Streams.Crcs.{
  is_some, any_some, all_some, defined_flags, to_le_bytes32, crc_bytes, write_optional_crcs,
}

-- A digest that is present fits 32 bits.
abbrev pub IsCrc : Option ℕ → Type 0
IsCrc none = Unit {0}
IsCrc (some c) = c < 2 ^ 32

-- What stands behind the tag.
unfoldable pub digest_block : List (Option ℕ) → Bytes
digest_block crcs =
    (if all_some crcs then 1 else 0)
    ∷ ((if all_some crcs then [] else bools_to_bytes (defined_flags crcs)) ++ crc_bytes crcs)

pub write_optional_crcs-some :
    (crcs : List (Option ℕ))
    → any_some crcs ≡ true
    → write_optional_crcs crcs ≡ 0x0a ∷ digest_block crcs
unfolding write_optional_crcs digest_block
write_optional_crcs-some crcs h = rw h

pub write_optional_crcs-none :
    (crcs : List (Option ℕ)) → any_some crcs ≡ false → write_optional_crcs crcs ≡ []
unfolding write_optional_crcs
write_optional_crcs-none crcs h = rw h

-- The flags that the reader tests are those of the digests.
abbrev pub Agrees : ℕ → Bytes → ℕ → List (Option ℕ) → Type 0
Agrees all_defined bitmap from [] = Unit {0}
Agrees all_defined bitmap from (c ∷ cs) =
    (is_defined all_defined bitmap from ≡ is_some c) × Agrees all_defined bitmap (from + 1) cs

pub all_some-Agrees :
    (from : ℕ) (crcs : List (Option ℕ)) → all_some crcs ≡ true → Agrees 1 [] from crcs
all_some-Agrees from [] h = tt
all_some-Agrees from (none ∷ cs) h = cc
all_some-Agrees from (some c ∷ cs) h = (refl, all_some-Agrees (from + 1) cs h)

pub flags-Agrees :
    (bitmap : Bytes) (from : ℕ) (crcs : List (Option ℕ))
    → ((i : ℕ) → bitmap_is_set bitmap (from + i) ≡ flag (defined_flags crcs) i)
    → Agrees 0 bitmap from crcs
flags-Agrees bitmap from [] h = tt
flags-Agrees bitmap from (c ∷ cs) h =
    (ground (arith, h 0, from-zero), flags-Agrees bitmap (from + 1) cs later)
  where
    from-zero : from + 0 ≡ from
    from-zero = omega arith

    later : (i : ℕ) → bitmap_is_set bitmap (from + 1 + i) ≡ flag (defined_flags cs) i
    later i = let e : from + 1 + i ≡ from + suc i = omega arith in rw e (h (suc i))

length-defined_flags : (crcs : List (Option ℕ)) → length (defined_flags crcs) ≡ length crcs
length-defined_flags [] = refl
length-defined_flags (c ∷ cs) = ap suc (length-defined_flags cs)

pub length-flags :
    (crcs : List (Option ℕ))
    → length (bools_to_bytes (defined_flags crcs)) ≡ div_ceil_8 (length crcs)
length-flags crcs =
    (bools_to_bytes-shape (defined_flags crcs)).1 ∙ ap div_ceil_8 (length-defined_flags crcs)

pub packed :
    (crcs : List (Option ℕ)) (i : ℕ)
    → bitmap_is_set (bools_to_bytes (defined_flags crcs)) (0 + i) ≡ flag (defined_flags crcs) i
packed crcs i =
    let e : 0 + i ≡ i = omega arith in rw e (bitmap_is_set-bools_to_bytes (defined_flags crcs) i)

module _ ⦃pk : Packages⦄ where
  read_crc :
      (c : ℕ) (rest : Bytes) → c < 2 ^ 32 → pk.le_u32 (to_le_bytes32 c ++ rest) ≡ ok (rest, c)
  read_crc c rest h = pk.le_u32-cons _ _ _ _ rest ∙ ground arith

  read_crcs-crc_bytes :
      (all_defined from : ℕ) (bitmap rest : Bytes) (crcs : List (Option ℕ))
      → All IsCrc crcs
      → Agrees all_defined bitmap from crcs
      → read_crcs all_defined bitmap from (length crcs) (crc_bytes crcs ++ rest) ≡ ok (rest, crcs)
  unfolding read_crcs crc_bytes
  read_crcs-crc_bytes all_defined from bitmap rest [] h a = refl
  read_crcs-crc_bytes all_defined from bitmap rest (none ∷ cs) (_, h) (d, a) =
      rw (d, read_crcs-crc_bytes all_defined (from + 1) bitmap rest cs h a)
  read_crcs-crc_bytes all_defined from bitmap rest (some c ∷ cs) (fits, h) (d, a) = rw (
    d,
    append_assoc (to_le_bytes32 c) (crc_bytes cs) rest,
    read_crc c (crc_bytes cs ++ rest) fits,
    read_crcs-crc_bytes all_defined (from + 1) bitmap rest cs h a,
  )

  -- A digest table that is written reads back, and what follows it is left.
  pub parse_digests-digest_block :
      (crcs : List (Option ℕ)) (rest : Bytes)
      → All IsCrc crcs
      → parse_digests (digest_block crcs ++ rest) (length crcs) ≡ ok (rest, crcs)
  unfolding parse_digests digest_block parse_bitmap
  parse_digests-digest_block crcs rest h = elim (Bool-cases (all_some crcs)) [
    | inl all ↦
        rw (all, pk.le_u8-cons 1 (crc_bytes crcs ++ rest))
          (read_crcs-crc_bytes 1 0 [] rest crcs h (all_some-Agrees 0 crcs all))
    | inr absent ↦
        let bitmap : Bytes = bools_to_bytes (defined_flags crcs) in
        rw
          (
            absent,
            pk.le_u8-cons 0 ((bitmap ++ crc_bytes crcs) ++ rest),
            append_assoc bitmap (crc_bytes crcs) rest,
            ← length-flags crcs,
            take_complete-append bitmap (crc_bytes crcs ++ rest),
          )
          (read_crcs-crc_bytes 0 0 bitmap rest crcs h (flags-Agrees bitmap 0 crcs (packed crcs)))
  ]

  -- For digests of 32 bits, some of them present, what `write_optional_crcs` writes starts with a tag
  -- and reads back behind it as the digests, with what follows it left.
  pub parse_digests-write_optional_crcs :
      (crcs : List (Option ℕ)) (rest : Bytes)
      → All IsCrc crcs
      → any_some crcs ≡ true
      → (Property.parse (write_optional_crcs crcs ++ rest) >>= λ (input, tag).
          parse_digests input (length crcs))
        ≡ ok (rest, crcs)
  unfolding to_u8
  parse_digests-write_optional_crcs crcs rest h any = rw (write_optional_crcs-some crcs any) (
      ap (λ (r : IResult Property). r >>= λ (input, tag). parse_digests input (length crcs))
        (parse-to_u8 Property.crc (digest_block crcs ++ rest))
      ∙ parse_digests-digest_block crcs rest h)
