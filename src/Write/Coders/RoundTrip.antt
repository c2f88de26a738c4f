-- ===== src/Write/Coders/RoundTrip.antt =====
-- src/write/header.rs and src/folder.rs: the folder blocks with one coder, read with `Folder::parse`.
use r7z.Prelude.{
  ℕ, ◌≤◌, ◌≡◌, refl, bit_and, Option, none, some, [], ◌∷◌, ◌++◌, append_assoc, length, ok, ◌==◌,
  IsU64, false, arith, le→leb, lt→ltb, word_mod,
}
use r7z.Nom.{Bytes}
use r7z.Nom.Repeat.{repeat}
use r7z.Packages.{Packages}
use r7z.Packages.Laws.{take_complete-append}
use r7z.Parsers.{sevenzip_varuint64_encode}
use r7z.Parsers.RoundTrip.{decode-encode}
use r7z.CoderInfo
use r7z.CoderInfo.{CoderInfo, CoderInfoRef, parse_ref, parse_arity, parse_properties}
use r7z.Folder
use r7z.Folder.{Folder, parse_coders, parse_packed_indices}
use r7z.Folder.Counts.{checked_coder_count, add_coder, layout}
use r7z.Write.Coders.{
  encode_coder_info_copy, encode_coder_info_lzma, encode_coder_info_lzma2, encode_coder_info_ppmd,
}

abbrev pub simple_coder : Bytes → Option Bytes → CoderInfo
simple_coder id props = record {
  codec_id = id;
  num_in_streams = 1;
  num_out_streams = 1;
  properties = props;
}

abbrev pub one_coder : CoderInfo → Folder
one_coder c = record { coders = c ∷ []; bind_pairs = []; packed_indices = [] }

module _ ⦃pk : Packages⦄ where
  -- A coder with one input, one output and properties.
  pub parse_ref-properties :
      (flags : ℕ) (id props rest : Bytes)
      → bit_and flags 0x0f ≡ length id
      → bit_and flags 0x10 ≡ 0
      → (bit_and flags 0x20 == 0) ≡ false
      → IsU64 (length props)
      → parse_ref (flags ∷ (id ++ (sevenzip_varuint64_encode (length props) ++ (props ++ rest))))
        ≡ ok (
          rest,
          record {
            codec_id = id;
            num_in_streams = 1;
            num_out_streams = 1;
            properties = some props;
          },
        )
  unfolding parse_ref parse_arity parse_properties
  parse_ref-properties flags id props rest size simple more fits =
      rw
        (
          pk.le_u8-cons flags (id ++ (sevenzip_varuint64_encode (length props) ++ (props ++ rest))),
          size,
          take_complete-append id (sevenzip_varuint64_encode (length props) ++ (props ++ rest)),
          simple,
          more,
          decode-encode (length props) (props ++ rest) fits,
          lt→ltb (length props) word_mod fits,
          take_complete-append props rest,
        )
        refl

  -- A folder of one coder with one input and one output.
  parse-one_coder :
      (block rest : Bytes) (id : Bytes) (props : Option Bytes)
      → length id ≤ 15
      → parse_ref (block ++ rest)
        ≡ ok (
          rest,
          record { codec_id = id; num_in_streams = 1; num_out_streams = 1; properties = props },
        )
      → Folder.parse (sevenzip_varuint64_encode 1 ++ (block ++ rest))
        ≡ ok (rest, one_coder (simple_coder id props))
  unfolding Folder.parse checked_coder_count parse_coders add_coder layout repeat
      parse_packed_indices CoderInfo.parse
  parse-one_coder block rest id props short e =
      rw
        (
          decode-encode 1 (block ++ rest) (omega arith),
          e,
          pk.array_try_from_lem 15 id,
          le→leb (length id) 15 short,
        )
        refl

  pub parse_ref-bare :
      (flags : ℕ) (id rest : Bytes)
      → bit_and flags 0x0f ≡ length id
      → bit_and flags 0x10 ≡ 0
      → bit_and flags 0x20 ≡ 0
      → parse_ref (flags ∷ (id ++ rest))
        ≡ ok (
          rest,
          record { codec_id = id; num_in_streams = 1; num_out_streams = 1; properties = none },
        )
  unfolding parse_ref parse_arity parse_properties
  parse_ref-bare flags id rest size simple bare =
      rw (pk.le_u8-cons flags (id ++ rest), size, take_complete-append id rest, simple, bare) refl

  -- A folder of one coder whose properties stand behind its id.
  parse-one_coder_properties :
      (flags : ℕ) (id props rest : Bytes)
      → length id ≤ 15
      → bit_and flags 0x0f ≡ length id
      → bit_and flags 0x10 ≡ 0
      → (bit_and flags 0x20 == 0) ≡ false
      → IsU64 (length props)
      → Folder.parse (
          (sevenzip_varuint64_encode 1
            ++ (flags ∷ (id ++ (sevenzip_varuint64_encode (length props) ++ props))))
          ++ rest)
        ≡ ok (rest, one_coder (simple_coder id (some props)))
  parse-one_coder_properties flags id props rest short size simple more fits =
      rw
        (append_assoc (sevenzip_varuint64_encode 1)
          (flags ∷ (id ++ (sevenzip_varuint64_encode (length props) ++ props))) rest)
        (parse-one_coder (flags ∷ (id ++ (sevenzip_varuint64_encode (length props) ++ props))) rest
          id (some props) short
          (rw
            (
              append_assoc id (sevenzip_varuint64_encode (length props) ++ props) rest,
              append_assoc (sevenzip_varuint64_encode (length props)) props rest,
            )
            (parse_ref-properties flags id props rest size simple more fits)))

  -- For five bytes of properties, each folder block with one coder reads back as the folder of that one
  -- coder, with the id and the properties that were written and no connections, and what follows it is
  -- left.
  pub parse-encode_coder_info :
      (props rest : Bytes) (props_byte : ℕ)
      → length props ≡ 5
      → (Folder.parse (encode_coder_info_copy ++ rest)
          ≡ ok (rest, one_coder (simple_coder (0 ∷ []) none)))
        × (Folder.parse (encode_coder_info_lzma props ++ rest)
            ≡ ok (rest, one_coder (simple_coder (3 ∷ 1 ∷ 1 ∷ []) (some props))))
        × (Folder.parse (encode_coder_info_lzma2 props_byte ++ rest)
            ≡ ok (rest, one_coder (simple_coder (0x21 ∷ []) (some (props_byte ∷ [])))))
        × (Folder.parse (encode_coder_info_ppmd props ++ rest)
            ≡ ok (rest, one_coder (simple_coder (3 ∷ 4 ∷ 1 ∷ []) (some props))))
  unfolding encode_coder_info_copy encode_coder_info_lzma encode_coder_info_lzma2
      encode_coder_info_ppmd
  parse-encode_coder_info props rest props_byte five = (
    rw (append_assoc (sevenzip_varuint64_encode 1) (0x01 ∷ 0x00 ∷ []) rest) (
        parse-one_coder (0x01 ∷ 0x00 ∷ []) rest (0 ∷ []) none (omega arith)
          (parse_ref-bare 0x01 (0 ∷ []) rest refl refl refl)),
    rw five at (
        parse-one_coder_properties 0x23 (3 ∷ 1 ∷ 1 ∷ []) props rest (omega arith) refl refl refl
          fits),
    parse-one_coder_properties 0x21 (0x21 ∷ []) (props_byte ∷ []) rest (omega arith) refl refl refl
        (omega arith),
    rw five at (
        parse-one_coder_properties 0x23 (3 ∷ 4 ∷ 1 ∷ []) props rest (omega arith) refl refl refl
          fits),
  )
    where
      fits : IsU64 (length props)
      fits = omega (arith, five)
