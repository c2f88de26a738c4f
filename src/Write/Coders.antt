-- ===== src/Write/Coders.antt =====
-- src/write/header.rs: the folder blocks that the writer emits for each coder chain.
pub mod RoundTrip
pub mod Specs
pub mod Chain
use r7z.Prelude.{ℕ, zero, suc, ◌+◌, List, [], ◌∷◌, ◌++◌, length}
use r7z.Nom.{Bytes}
use r7z.Parsers.{sevenzip_varuint64_encode}

unfoldable pub encode_coder_info_copy : Bytes
encode_coder_info_copy = sevenzip_varuint64_encode 1 ++ (0x01 ∷ 0x00 ∷ [])

unfoldable pub encode_coder_info_lzma : Bytes → Bytes
encode_coder_info_lzma props =
    sevenzip_varuint64_encode 1
    ++ (0x23 ∷ 0x03 ∷ 0x01 ∷ 0x01 ∷ (sevenzip_varuint64_encode 5 ++ props))

unfoldable pub encode_coder_info_lzma2 : ℕ → Bytes
encode_coder_info_lzma2 props_byte =
    sevenzip_varuint64_encode 1
    ++ (0x21 ∷ 0x21 ∷ (sevenzip_varuint64_encode 1 ++ (props_byte ∷ [])))

unfoldable pub encode_coder_info_ppmd : Bytes → Bytes
encode_coder_info_ppmd props =
    sevenzip_varuint64_encode 1
    ++ (0x23 ∷ 0x03 ∷ 0x04 ∷ 0x01 ∷ (sevenzip_varuint64_encode 5 ++ props))

unfoldable pub encode_coder_info_bcj_lzma2 : ℕ → Bytes
encode_coder_info_bcj_lzma2 props_byte =
    sevenzip_varuint64_encode 2
    ++ (0x21
        ∷ 0x21
        ∷ (sevenzip_varuint64_encode 1
            ++ (props_byte
                ∷ 0x04
                ∷ 0x03
                ∷ 0x03
                ∷ 0x01
                ∷ 0x03
                ∷ (sevenzip_varuint64_encode 1 ++ sevenzip_varuint64_encode 0))))

pub data CoderSpec : Type 0 where
  copy : CoderSpec
  lzma : Bytes → CoderSpec
  lzma2 : ℕ → CoderSpec
  ppmd : Bytes → CoderSpec
  bcj : CoderSpec

-- The arms of `match spec`.
unfoldable pub encode_spec : CoderSpec → Bytes
encode_spec copy = 0x01 ∷ 0x00 ∷ []
encode_spec (lzma props) = 0x23 ∷ 0x03 ∷ 0x01 ∷ 0x01 ∷ (sevenzip_varuint64_encode 5 ++ props)
encode_spec (lzma2 prop) = 0x21 ∷ 0x21 ∷ (sevenzip_varuint64_encode 1 ++ (prop ∷ []))
encode_spec (ppmd props) = 0x23 ∷ 0x03 ∷ 0x04 ∷ 0x01 ∷ (sevenzip_varuint64_encode 5 ++ props)
encode_spec bcj = 0x04 ∷ 0x03 ∷ 0x03 ∷ 0x01 ∷ 0x03 ∷ []

unfoldable pub encode_specs : List CoderSpec → Bytes
encode_specs [] = []
encode_specs (spec ∷ specs) = encode_spec spec ++ encode_specs specs

-- The bind pairs `(out_idx + 1, out_idx)` from `out_idx` on.
unfoldable pub encode_chain : ℕ → ℕ → Bytes
encode_chain out_idx zero = []
encode_chain out_idx (suc n) =
    sevenzip_varuint64_encode (out_idx + 1)
    ++ (sevenzip_varuint64_encode out_idx ++ encode_chain (out_idx + 1) n)

unfoldable pub encode_coder_info_aes_then : List CoderSpec → Bytes → Bytes
encode_coder_info_aes_then inner aes_props =
    sevenzip_varuint64_encode (1 + length inner)
    ++ (0x24
        ∷ 0x06
        ∷ 0xF1
        ∷ 0x07
        ∷ 0x01
        ∷ (sevenzip_varuint64_encode (length aes_props)
            ++ (aes_props ++ (encode_specs inner ++ encode_chain 0 (length inner)))))
