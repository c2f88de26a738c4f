-- ===== src/Write/Coders/Chain.antt =====
-- src/write/header.rs and src/folder.rs: the folder block of `encode_coder_info_aes_then`, a chain of
-- coders behind AES, read with `Folder::parse`.
use r7z.Prelude.{
  ℕ, zero, suc, ◌+◌, ◌<◌, ◌≤◌, ◌≡◌, refl, ap, some, List, [], ◌∷◌, ◌++◌, map, append_assoc, length,
  ok, All, IsU64, arith, lt→ltb,
}
use r7z.Nom.{Bytes}
use r7z.Nom.Repeat.{repeat}
use r7z.Packages.{Packages}
use r7z.Parsers.{sevenzip_varuint64_encode}
use r7z.Parsers.RoundTrip.{decode-encode}
use r7z.CoderInfo.Laws.{parse-parse_ref}
use r7z.Folder
use r7z.Folder.{Folder, parse_coders, parse_packed_indices, parse_bind_pair}
use r7z.Folder.Counts.{
  StreamCounts, no_streams, max_folder_streams, checked_coder_count, checked_stream_index,
  add_coder, layout,
}
use r7z.Write.Coders.{
  CoderSpec, encode_spec, encode_specs, encode_chain, encode_coder_info_aes_then,
}
use r7z.Write.Coders.RoundTrip.{simple_coder, parse_ref-properties}
use r7z.Write.Coders.Specs.{spec_coder, IsSpec, parse-encode_spec, spec_arity}

-- The pairs that bind each coder's input to the output before it.
abbrev pub chain_pairs : ℕ → ℕ → List (ℕ × ℕ)
chain_pairs out_idx zero = []
chain_pairs out_idx (suc n) = (out_idx + 1, out_idx) ∷ chain_pairs (out_idx + 1) n

abbrev same_counts : ℕ → StreamCounts
same_counts k = record { inputs = k; outputs = k }

module _ ⦃pk : Packages⦄ where
  add_coder-one :
      (k : ℕ) (input : Bytes)
      → k < max_folder_streams
      → add_coder (same_counts k) input 1 1 ≡ ok (same_counts (k + 1))
  unfolding add_coder
  add_coder-one k input h = ground arith

  parse_coders-encode_specs :
      (specs : List CoderSpec) (k : ℕ) (rest : Bytes)
      → All IsSpec specs
      → k + length specs ≤ max_folder_streams
      → parse_coders (length specs) (same_counts k) (encode_specs specs ++ rest)
        ≡ ok (rest, (map spec_coder specs, same_counts (k + length specs)))
  unfolding parse_coders encode_specs
  parse_coders-encode_specs [] k rest h fits =
      let same : k ≡ k + 0 = omega arith in ap (λ (t : ℕ). ok (rest, ([], same_counts t))) same
  parse_coders-encode_specs (s ∷ specs) k rest (p, h) fits =
      let shift : k + 1 + length specs ≡ k + suc (length specs) = omega arith in
      rw
        (
          append_assoc (encode_spec s) (encode_specs specs) rest,
          parse-encode_spec s (encode_specs specs ++ rest) p,
          (spec_arity s).0,
          (spec_arity s).1,
          add_coder-one k (encode_specs specs ++ rest) (omega arith),
          parse_coders-encode_specs specs (k + 1) rest h (omega arith),
          shift,
        )
        refl

  bind_pairs-encode_chain :
      (n out_idx t : ℕ) (rest : Bytes)
      → out_idx + n < t
      → t ≤ max_folder_streams
      → repeat (parse_bind_pair (same_counts t)) n (encode_chain out_idx n ++ rest)
        ≡ ok (rest, chain_pairs out_idx n)
  unfolding repeat encode_chain parse_bind_pair checked_stream_index
  bind_pairs-encode_chain zero out_idx t rest h fits = refl
  bind_pairs-encode_chain (suc n) out_idx t rest h fits =
      rw
        (
          append_assoc (sevenzip_varuint64_encode (out_idx + 1))
              (sevenzip_varuint64_encode out_idx ++ encode_chain (out_idx + 1) n) rest,
          append_assoc (sevenzip_varuint64_encode out_idx) (encode_chain (out_idx + 1) n) rest,
          decode-encode (out_idx + 1)
              (sevenzip_varuint64_encode out_idx ++ (encode_chain (out_idx + 1) n ++ rest))
              (omega arith),
          lt→ltb (out_idx + 1) t (omega arith),
          decode-encode out_idx (encode_chain (out_idx + 1) n ++ rest) (omega arith),
          lt→ltb out_idx t (omega arith),
          bind_pairs-encode_chain n (out_idx + 1) t rest (omega arith) fits,
        )
        refl

  -- The coders with AES in front.
  parse_coders-aes :
      (specs : List CoderSpec) (aes_props rest : Bytes)
      → All IsSpec specs
      → IsU64 (length aes_props)
      → length specs < max_folder_streams
      → parse_coders (suc (length specs)) no_streams (
          0x24
          ∷ 0x06
          ∷ 0xF1
          ∷ 0x07
          ∷ 0x01
          ∷ (sevenzip_varuint64_encode (length aes_props)
              ++ (aes_props ++ (encode_specs specs ++ rest))))
        ≡ ok (
          rest,
          (
            simple_coder (0x06 ∷ 0xF1 ∷ 0x07 ∷ 0x01 ∷ []) (some aes_props) ∷ map spec_coder specs,
            same_counts (1 + length specs),
          ),
        )
  unfolding parse_coders
  parse_coders-aes specs aes_props rest h fits few =
      rw
        (
          parse-parse_ref (
              0x24
              ∷ 0x06
              ∷ 0xF1
              ∷ 0x07
              ∷ 0x01
              ∷ (sevenzip_varuint64_encode (length aes_props)
                  ++ (aes_props ++ (encode_specs specs ++ rest)))),
          parse_ref-properties 0x24 (0x06 ∷ 0xF1 ∷ 0x07 ∷ 0x01 ∷ []) aes_props
              (encode_specs specs ++ rest) refl refl refl fits,
          add_coder-one 0 (encode_specs specs ++ rest) (omega arith),
          parse_coders-encode_specs specs 1 rest h (omega arith),
        )
        refl

  layout-chain : (n : ℕ) (input : Bytes) → layout (same_counts (1 + n)) input ≡ ok (n, 1)
  unfolding layout
  layout-chain n input = ground arith

  count-chain :
      (n : ℕ) (input : Bytes)
      → n < max_folder_streams
      → checked_coder_count input (1 + n) ≡ ok (suc n)
  unfolding checked_coder_count
  count-chain n input h = ground arith

  -- For fewer than 16384 inner coders, with five bytes of properties for LZMA and PPMd, the folder block
  -- of an AES chain reads back as the folder of those coders with AES in front, each coder's input bound
  -- to the output of the coder before it, and what follows it is left.
  pub parse-encode_coder_info_aes_then :
      (inner : List CoderSpec) (aes_props rest : Bytes)
      → All IsSpec inner
      → IsU64 (length aes_props)
      → length inner < max_folder_streams
      → Folder.parse (encode_coder_info_aes_then inner aes_props ++ rest)
        ≡ ok (
          rest,
          record {
            coders =
                simple_coder (0x06 ∷ 0xF1 ∷ 0x07 ∷ 0x01 ∷ []) (some aes_props)
                ∷ map spec_coder inner;
            bind_pairs = chain_pairs 0 (length inner);
            packed_indices = [];
          },
        )
  unfolding encode_coder_info_aes_then Folder.parse parse_packed_indices
  parse-encode_coder_info_aes_then inner aes_props rest h fits few =
      let chain : Bytes = encode_chain 0 (length inner) in
      rw
        (
          append_assoc (sevenzip_varuint64_encode (1 + length inner))
              (0x24
                ∷ 0x06
                ∷ 0xF1
                ∷ 0x07
                ∷ 0x01
                ∷ (sevenzip_varuint64_encode (length aes_props)
                    ++ (aes_props ++ (encode_specs inner ++ chain))))
              rest,
          append_assoc (sevenzip_varuint64_encode (length aes_props))
              (aes_props ++ (encode_specs inner ++ chain)) rest,
          append_assoc aes_props (encode_specs inner ++ chain) rest,
          append_assoc (encode_specs inner) chain rest,
          decode-encode (1 + length inner)
              (0x24
                ∷ 0x06
                ∷ 0xF1
                ∷ 0x07
                ∷ 0x01
                ∷ (sevenzip_varuint64_encode (length aes_props)
                    ++ (aes_props ++ (encode_specs inner ++ (chain ++ rest)))))
              (omega arith),
          count-chain (length inner)
              (0x24
                ∷ 0x06
                ∷ 0xF1
                ∷ 0x07
                ∷ 0x01
                ∷ (sevenzip_varuint64_encode (length aes_props)
                    ++ (aes_props ++ (encode_specs inner ++ (chain ++ rest)))))
              few,
          parse_coders-aes inner aes_props (chain ++ rest) h fits few,
          layout-chain (length inner) (chain ++ rest),
          bind_pairs-encode_chain (length inner) 0 (1 + length inner) rest (omega arith)
              (omega arith),
        )
        refl
