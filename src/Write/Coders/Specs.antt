-- ===== src/Write/Coders/Specs.antt =====
-- src/write/header.rs and src/coder_info.rs: one coder of `encode_coder_info_aes_then`, read with
-- `CoderInfo::parse`.
use r7z.Prelude.{
  ℕ, ◌≡◌, refl, bit_and, none, some, [], ◌∷◌, ◌++◌, append_assoc, length, ok, ◌==◌, IsU64, false,
  arith,
}
use r7z.Nom.{Bytes}
use r7z.Packages.{Packages}
use r7z.Parsers.{sevenzip_varuint64_encode}
use r7z.CoderInfo
use r7z.CoderInfo.{CoderInfo, parse_ref}
use r7z.CoderInfo.Laws.{parse-parse_ref}
use r7z.Write.Coders.{CoderSpec, encode_spec}
use r7z.Write.Coders.RoundTrip.{simple_coder, parse_ref-bare, parse_ref-properties}

-- The coder that a spec stands for, and the length of its properties.
abbrev pub spec_coder : CoderSpec → CoderInfo
spec_coder CoderSpec.copy = simple_coder (0 ∷ []) none
spec_coder (CoderSpec.lzma props) = simple_coder (3 ∷ 1 ∷ 1 ∷ []) (some props)
spec_coder (CoderSpec.lzma2 prop) = simple_coder (0x21 ∷ []) (some (prop ∷ []))
spec_coder (CoderSpec.ppmd props) = simple_coder (3 ∷ 4 ∷ 1 ∷ []) (some props)
spec_coder CoderSpec.bcj = simple_coder (3 ∷ 3 ∷ 1 ∷ 3 ∷ []) none

abbrev pub IsSpec : CoderSpec → Type 0
IsSpec (CoderSpec.lzma props) = length props ≡ 5
IsSpec (CoderSpec.ppmd props) = length props ≡ 5
IsSpec spec = Unit {0}

module _ ⦃pk : Packages⦄ where
  parse-bare :
      (flags : ℕ) (id rest : Bytes)
      → bit_and flags 0x0f ≡ length id
      → bit_and flags 0x10 ≡ 0
      → bit_and flags 0x20 ≡ 0
      → CoderInfo.parse (flags ∷ (id ++ rest)) ≡ ok (rest, simple_coder id none)
  parse-bare flags id rest size simple bare =
      rw (parse-parse_ref (flags ∷ (id ++ rest)), parse_ref-bare flags id rest size simple bare)
        refl

  parse-properties :
      (flags : ℕ) (id props rest : Bytes)
      → bit_and flags 0x0f ≡ length id
      → bit_and flags 0x10 ≡ 0
      → (bit_and flags 0x20 == 0) ≡ false
      → IsU64 (length props)
      → CoderInfo.parse
          ((flags ∷ (id ++ (sevenzip_varuint64_encode (length props) ++ props))) ++ rest)
        ≡ ok (rest, simple_coder id (some props))
  parse-properties flags id props rest size simple more fits =
      rw
        (
          append_assoc id (sevenzip_varuint64_encode (length props) ++ props) rest,
          append_assoc (sevenzip_varuint64_encode (length props)) props rest,
          parse-parse_ref
              (flags ∷ (id ++ (sevenzip_varuint64_encode (length props) ++ (props ++ rest)))),
          parse_ref-properties flags id props rest size simple more fits,
        )
        refl

  pub parse-encode_spec :
      (spec : CoderSpec) (rest : Bytes)
      → IsSpec spec
      → CoderInfo.parse (encode_spec spec ++ rest) ≡ ok (rest, spec_coder spec)
  unfolding encode_spec
  parse-encode_spec CoderSpec.copy rest h = parse-bare 0x01 (0 ∷ []) rest refl refl refl
  parse-encode_spec (CoderSpec.lzma props) rest h =
      rw h at (parse-properties 0x23 (3 ∷ 1 ∷ 1 ∷ []) props rest refl refl refl (omega (arith, h)))
  parse-encode_spec (CoderSpec.lzma2 prop) rest h =
      parse-properties 0x21 (0x21 ∷ []) (prop ∷ []) rest refl refl refl (omega arith)
  parse-encode_spec (CoderSpec.ppmd props) rest h =
      rw h at (parse-properties 0x23 (3 ∷ 4 ∷ 1 ∷ []) props rest refl refl refl (omega (arith, h)))
  parse-encode_spec CoderSpec.bcj rest h = parse-bare 0x04 (3 ∷ 3 ∷ 1 ∷ 3 ∷ []) rest refl refl refl

  pub spec_arity :
      (spec : CoderSpec)
      → ((spec_coder spec).num_in_streams ≡ 1) × ((spec_coder spec).num_out_streams ≡ 1)
  spec_arity CoderSpec.copy = (refl, refl)
  spec_arity (CoderSpec.lzma props) = (refl, refl)
  spec_arity (CoderSpec.lzma2 prop) = (refl, refl)
  spec_arity (CoderSpec.ppmd props) = (refl, refl)
  spec_arity CoderSpec.bcj = (refl, refl)
