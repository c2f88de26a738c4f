-- ===== src/PackInfo/RoundTrip.antt =====
-- src/write/header.rs and src/pack_info.rs: the block of `write_pack_info`, read with
-- `PackInfo::parse`.
use r7z.Prelude.{
  ℕ, ◌≡◌, refl, none, List, [], ◌∷◌, ◌++◌, append_assoc, length, replicate, All, ok, IsU64, arith,
}
use r7z.Nom.{Bytes}
use r7z.Packages.{Packages}
use r7z.Property.{Property}
use r7z.Property.Codes.{to_u8, is_tag}
use r7z.Property.Laws.{parse-to_u8}
use r7z.Parsers.{sevenzip_varuint64_encode}
use r7z.Parsers.RoundTrip.{decode-encode}
use r7z.Sections.Written.{read_sections-end}
use r7z.PackInfo
use r7z.PackInfo.{PackInfo, parse_pack_start, expect_tag, fill_digests, pack_section}
use r7z.Write.Streams.{CompletedFolder, sum_lengths, encode_all, write_pack_info}
use r7z.Write.Streams.Written.{
  repeat-encode_all, all_pack_sizes, write_pack_sizes-encode_all, length-all_pack_sizes,
}

module _ ⦃pk : Packages⦄ where
  parse_pack_start-written :
      (pos num : ℕ) (rest : Bytes)
      → IsU64 pos
      → IsU64 num
      → parse_pack_start (
          0x06
          ∷ (sevenzip_varuint64_encode pos ++ (sevenzip_varuint64_encode num ++ (0x09 ∷ rest))))
        ≡ ok (rest, (pos, num))
  unfolding parse_pack_start expect_tag is_tag to_u8
  parse_pack_start-written pos num rest hp hn =
      rw
        (
          parse-to_u8 Property.pack_info
              (sevenzip_varuint64_encode pos ++ (sevenzip_varuint64_encode num ++ (0x09 ∷ rest))),
          decode-encode pos (sevenzip_varuint64_encode num ++ (0x09 ∷ rest)) hp,
          decode-encode num (0x09 ∷ rest) hn,
          parse-to_u8 Property.size rest,
        )
        refl

  -- The block as its fields, one after another.
  pack_bytes :
      (folders : List CompletedFolder) (rest : Bytes)
      → write_pack_info folders ++ rest
        ≡ 0x06
          ∷ (sevenzip_varuint64_encode 0
              ++ (sevenzip_varuint64_encode (sum_lengths folders)
                  ++ (0x09 ∷ (encode_all (all_pack_sizes folders) ++ (0x00 ∷ rest)))))
  unfolding write_pack_info
  pack_bytes folders rest =
      rw
        (
          write_pack_sizes-encode_all folders,
          append_assoc (sevenzip_varuint64_encode 0)
              (sevenzip_varuint64_encode (sum_lengths folders)
                ++ (0x09 ∷ (encode_all (all_pack_sizes folders) ++ (0x00 ∷ []))))
              rest,
          append_assoc (sevenzip_varuint64_encode (sum_lengths folders))
              (0x09 ∷ (encode_all (all_pack_sizes folders) ++ (0x00 ∷ []))) rest,
          append_assoc (encode_all (all_pack_sizes folders)) (0x00 ∷ []) rest,
        )
        refl

  -- For sizes and a number of pack streams that are `u64`s, the pack block that is written reads back as
  -- position 0 and the sizes of all folders in order, without digests, and what follows it is left.
  pub parse-write_pack_info :
      (folders : List CompletedFolder) (rest : Bytes)
      → All IsU64 (all_pack_sizes folders)
      → IsU64 (sum_lengths folders)
      → PackInfo.parse (write_pack_info folders ++ rest)
        ≡ ok (
          rest,
          record {
            pack_pos = 0;
            num_pack_streams = sum_lengths folders;
            pack_size = all_pack_sizes folders;
            digests = replicate (length (all_pack_sizes folders)) none;
          },
        )
  unfolding PackInfo.parse fill_digests
  parse-write_pack_info folders rest sizes count =
      rw
        (
          pack_bytes folders rest,
          parse_pack_start-written 0 (sum_lengths folders)
              (encode_all (all_pack_sizes folders) ++ (0x00 ∷ rest)) (omega arith) count,
          ← length-all_pack_sizes folders,
          repeat-encode_all (all_pack_sizes folders) (0x00 ∷ rest) sizes,
          read_sections-end (pack_section (length (all_pack_sizes folders))) rest [],
        )
        refl
