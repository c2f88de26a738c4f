-- ===== src/Tests/Varints.antt =====
-- The integers and bitmaps at concrete inputs.
use r7z.Prelude.{◌≤◌, ◌≡◌, refl, true, false, [], ◌∷◌, ◌++◌, length, ok, err, arith}
use r7z.Nom.{Bytes, error, eof}
use r7z.Parsers.{
  encode_loop, decode_loop, sevenzip_varuint64_encode, sevenzip_varuint64_decode, bitmap_is_set,
}
use r7z.Parsers.Leading.{leading_ones}
use r7z.Parsers.Positional.{positional, decode-positional}
use r7z.Parsers.RoundTrip.{decode-encode}
use r7z.Parsers.Decode.{decode_truncated, decode_suffix}
use r7z.Write.Bitmap.{set_bits, bools_to_bytes}
use r7z.Write.Bitmap.Laws.{flag, bitmap_is_set-bools_to_bytes}

-- Runs of the definitions.
encode_two_bytes : sevenzip_varuint64_encode 0x1234 ≡ 0x92 ∷ 0x34 ∷ []
unfolding sevenzip_varuint64_encode encode_loop
encode_two_bytes = refl

encode_largest :
    sevenzip_varuint64_encode 18_446_744_073_709_551_615
    ≡ 255 ∷ 255 ∷ 255 ∷ 255 ∷ 255 ∷ 255 ∷ 255 ∷ 255 ∷ 255 ∷ []
unfolding sevenzip_varuint64_encode encode_loop
encode_largest = refl

decode_two_bytes : sevenzip_varuint64_decode (0x92 ∷ 0x34 ∷ 7 ∷ []) ≡ ok (7 ∷ [], 0x1234)
unfolding sevenzip_varuint64_decode decode_loop
decode_two_bytes = refl

pack_ten_flags :
    bools_to_bytes (true ∷ false ∷ true ∷ true ∷ false ∷ false ∷ false ∷ true ∷ false ∷ true ∷ [])
    ≡ 0xB1 ∷ 0x40 ∷ []
unfolding bools_to_bytes set_bits
pack_ten_flags = refl

decode-encode_example :
    sevenzip_varuint64_decode (sevenzip_varuint64_encode 0x1234 ++ (7 ∷ [])) ≡ ok (7 ∷ [], 0x1234)
decode-encode_example = decode-encode 0x1234 (7 ∷ []) (omega arith)

decode_truncated_example : sevenzip_varuint64_decode (0x92 ∷ []) ≡ err (error (0x92 ∷ []) eof)
decode_truncated_example =
    decode_truncated 0x1234 0x34 (0x92 ∷ []) [] (omega arith) encode_two_bytes

decode_suffix_example :
    (used : Bytes) × (0x92 ∷ 0x34 ∷ 7 ∷ [] ≡ used ++ (7 ∷ []))
    × (1 ≤ length used)
    × (length used ≤ 9)
decode_suffix_example = decode_suffix (0x92 ∷ 0x34 ∷ 7 ∷ []) (7 ∷ []) 0x1234 decode_two_bytes

bitmap_is_set-bools_to_bytes_example :
    bitmap_is_set (bools_to_bytes (true ∷ false ∷ true ∷ [])) 2 ≡ flag (true ∷ false ∷ true ∷ []) 2
bitmap_is_set-bools_to_bytes_example = bitmap_is_set-bools_to_bytes (true ∷ false ∷ true ∷ []) 2

-- The value 0x34 written in three bytes, which is more than it needs.
decode-positional_example :
    sevenzip_varuint64_decode (0xC0 ∷ 0x34 ∷ 0 ∷ 7 ∷ [])
    ≡ positional 0xC0 (0xC0 ∷ 0x34 ∷ 0 ∷ 7 ∷ []) (0x34 ∷ 0 ∷ 7 ∷ []) 0 1 (leading_ones 0xC0)
decode-positional_example =
    decode-positional 0xC0 (0x34 ∷ 0 ∷ 7 ∷ [])
      (omega arith, (omega arith, (omega arith, (omega arith, tt))))

long_form : sevenzip_varuint64_decode (0xC0 ∷ 0x34 ∷ 0 ∷ 7 ∷ []) ≡ ok (7 ∷ [], 0x34)
unfolding sevenzip_varuint64_decode decode_loop
long_form = refl
