-- ===== src/Tests/Written.antt =====
-- The blocks that are written and read back, at concrete inputs.
use r7z.Prelude.{◌≡◌, refl, none, some, [], ◌∷◌, ◌++◌, ok, arith}
use r7z.Nom.{Bytes}
use r7z.PackInfo
use r7z.PackInfo.RoundTrip.{parse-write_pack_info}
use r7z.Folder
use r7z.Folder.{Folder}
use r7z.Folder.Valid.{IsValid, parse-IsValid}
use r7z.Write.Coders.{
  CoderSpec, encode_coder_info_copy, encode_coder_info_lzma, encode_coder_info_lzma2,
  encode_coder_info_ppmd, encode_coder_info_aes_then,
}
use r7z.Write.Coders.RoundTrip.{simple_coder, one_coder, parse-encode_coder_info}
use r7z.Write.Coders.Chain.{parse-encode_coder_info_aes_then}
use r7z.Write.Streams.{CompletedFolder, write_pack_info}
use r7z.Tests.Bundle.{bundle}

abbrev written_folder : CompletedFolder
written_folder = record {
  file_indices = 0 ∷ 1 ∷ [];
  pack_sizes = 300 ∷ [];
  coder_info = encode_coder_info_lzma2 24;
  coder_unpack_sizes = 70_000 ∷ [];
  folder_crc = none;
  file_sizes = 30_000 ∷ 40_000 ∷ [];
  file_crcs = some 1 ∷ some 2 ∷ [];
}

parse-write_pack_info_example :
    PackInfo.parse (write_pack_info (written_folder ∷ written_folder ∷ []) ++ (7 ∷ []))
    ≡ ok (
      7 ∷ [],
      record {
        pack_pos = 0;
        num_pack_streams = 2;
        pack_size = 300 ∷ 300 ∷ [];
        digests = none ∷ none ∷ [];
      },
    )
parse-write_pack_info_example =
    parse-write_pack_info (written_folder ∷ written_folder ∷ []) (7 ∷ [])
      (omega arith, (omega arith, tt)) (omega arith)

abbrev lzma_props : Bytes
lzma_props = 0x5D ∷ 0 ∷ 0 ∷ 0x10 ∷ 0 ∷ []

parse-encode_coder_info_example :
    (Folder.parse (encode_coder_info_copy ++ (7 ∷ []))
      ≡ ok (7 ∷ [], one_coder (simple_coder (0 ∷ []) none)))
    × (Folder.parse (encode_coder_info_lzma lzma_props ++ (7 ∷ []))
        ≡ ok (7 ∷ [], one_coder (simple_coder (3 ∷ 1 ∷ 1 ∷ []) (some lzma_props))))
    × (Folder.parse (encode_coder_info_lzma2 24 ++ (7 ∷ []))
        ≡ ok (7 ∷ [], one_coder (simple_coder (0x21 ∷ []) (some (24 ∷ [])))))
    × (Folder.parse (encode_coder_info_ppmd lzma_props ++ (7 ∷ []))
        ≡ ok (7 ∷ [], one_coder (simple_coder (3 ∷ 4 ∷ 1 ∷ []) (some lzma_props))))
parse-encode_coder_info_example = parse-encode_coder_info lzma_props (7 ∷ []) 24 refl

parse-encode_coder_info_aes_then_example :
    Folder.parse (
      encode_coder_info_aes_then (CoderSpec.lzma2 24 ∷ CoderSpec.bcj ∷ []) (0x53 ∷ 7 ∷ [])
      ++ (7 ∷ []))
    ≡ ok (
      7 ∷ [],
      record {
        coders =
            simple_coder (0x06 ∷ 0xF1 ∷ 0x07 ∷ 0x01 ∷ []) (some (0x53 ∷ 7 ∷ []))
            ∷ simple_coder (0x21 ∷ []) (some (24 ∷ []))
            ∷ simple_coder (3 ∷ 3 ∷ 1 ∷ 3 ∷ []) none
            ∷ [];
        bind_pairs = (1, 0) ∷ (2, 1) ∷ [];
        packed_indices = [];
      },
    )
parse-encode_coder_info_aes_then_example =
    parse-encode_coder_info_aes_then (CoderSpec.lzma2 24 ∷ CoderSpec.bcj ∷ []) (0x53 ∷ 7 ∷ [])
      (7 ∷ []) (tt, (tt, tt)) (omega arith) (omega arith)

abbrev aes_folder : Folder
aes_folder = record {
  coders =
      simple_coder (0x06 ∷ 0xF1 ∷ 0x07 ∷ 0x01 ∷ []) (some (0x53 ∷ 7 ∷ []))
      ∷ simple_coder (0 ∷ []) none
      ∷ [];
  bind_pairs = (1, 0) ∷ [];
  packed_indices = [];
}

parse-IsValid_example : IsValid aes_folder
parse-IsValid_example =
    parse-IsValid (encode_coder_info_aes_then (CoderSpec.copy ∷ []) (0x53 ∷ 7 ∷ []) ++ (9 ∷ []))
      (9 ∷ []) aes_folder
      (parse-encode_coder_info_aes_then (CoderSpec.copy ∷ []) (0x53 ∷ 7 ∷ []) (9 ∷ []) (tt, tt)
        (omega arith) (omega arith))
