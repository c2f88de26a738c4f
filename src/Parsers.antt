-- ===== src/Parsers.antt =====
-- src/parsers.rs: the variable-length integers of 7z, bitmaps and the walk over a digest block.
pub mod Weights
pub mod Encode
pub mod Decode
pub mod Leading
pub mod Positional
pub mod RoundTrip
use r7z.Prelude.{
  ℕ, zero, suc, ◌+◌, ◌-◌, ◌*◌, ◌/◌, ◌%◌, ◌^◌, bit_and, bit_or, Bool, true, false, Option, none,
  some, List, [], ◌∷◌, ◌++◌, get_elem?, Result, ok, err, ◌>>=◌, ◌>>◌, ok_or, if◌then◌else◌, ltb,
  ◌==◌, not, checked_mul, div_ceil_8, word_mod,
}
use r7z.Nom.{Bytes, IResult, ParseError, error, eof, too_large}
use r7z.Packages.{Packages}

-- One round of the loop for each extra byte: `first` is `result[0]` and `tail` what was pushed
-- behind it. The mask is halved eight times before it is 0, so eight rounds are enough.
unfoldable pub encode_loop : ℕ → ℕ → ℕ → ℕ → Bytes → Bytes
encode_loop zero value first mask tail = first ∷ tail
encode_loop (suc rounds) value first mask tail =
    let first' = bit_or first mask in
    let tail' = tail ++ (value % 256 ∷ []) in
    let rest = encode_loop rounds (value / 256) first' (mask / 2) tail' in
    if ltb value mask
    then bit_or first value ∷ tail
    else if mask / 2 == 0
    then first' ∷ tail'
    else rest

unfoldable pub sevenzip_varuint64_encode : ℕ → Bytes
sevenzip_varuint64_encode value = encode_loop 8 value 0 0x80 []

-- `x << bits` on a `u64`.
abbrev pub shl64 : ℕ → ℕ → ℕ
shl64 x bits = x * 2 ^ bits % word_mod

-- `for i in 0..8`: `rest` is `input[consumed..]`.
unfoldable pub decode_loop : ℕ → ℕ → ℕ → ℕ → ℕ → Bytes → Bytes → IResult ℕ
decode_loop zero i first_byte mask value input rest = ok (rest, value)
decode_loop (suc rounds) i first_byte mask value input [] =
    if bit_and first_byte mask == 0
    then ok ([], (value + shl64 (bit_and first_byte (mask - 1)) (8 * i)) % word_mod)
    else err (error input eof)
decode_loop (suc rounds) i first_byte mask value input (next ∷ rest) =
    let value' = bit_or value (shl64 next (8 * i)) in
    let more = decode_loop rounds (i + 1) first_byte (mask / 2) value' input rest in
    if bit_and first_byte mask == 0
    then ok (next ∷ rest, (value + shl64 (bit_and first_byte (mask - 1)) (8 * i)) % word_mod)
    else more

unfoldable pub sevenzip_varuint64_decode : Bytes → IResult ℕ
sevenzip_varuint64_decode [] = err (error [] eof)
sevenzip_varuint64_decode (first_byte ∷ rest) =
    decode_loop 8 0 first_byte 0x80 0 (first_byte ∷ rest) rest

-- `(b >> (7 - index % 8)) & 1 == 1`
unfoldable pub bit_of : ℕ → ℕ → Bool
bit_of index b = b / 2 ^ (7 - index % 8) % 2 == 1

unfoldable pub test_byte : ℕ → Option ℕ → Bool
unfolding bit_of
test_byte index none = false
test_byte index (some b) = bit_of index b

unfoldable pub bitmap_is_set : Bytes → ℕ → Bool
unfolding test_byte
bitmap_is_set bitmap index = test_byte index (get_elem? bitmap (index / 8))

-- `(0..num).filter(|&i| bitmap_is_set(bitmap, i)).count()`, from index `from` on.
unfoldable pub count_set : Bytes → ℕ → ℕ → ℕ
count_set bitmap from zero = 0
count_set bitmap from (suc num) =
    (if bitmap_is_set bitmap from then 1 else 0) + count_set bitmap (from + 1) num

module _ ⦃pk : Packages⦄ where
  -- `num_defined.checked_mul(4)` bytes of CRCs.
  unfoldable pub skip_crcs : ℕ → Bytes → IResult (Unit {0})
  skip_crcs num_defined input = do
    crc_bytes ← ok_or (checked_mul num_defined 4) (error input too_large)
    (input, _) ← pk.take_complete crc_bytes input
    ok (input, tt)

  unfoldable pub scan_digests : Bytes → ℕ → IResult (Unit {0})
  unfolding skip_crcs
  scan_digests input num = do
    (input, all_defined) ← pk.le_u8 input
    if not (all_defined == 0) then skip_crcs num input else do
      (input, bitmap) ← pk.take_complete (div_ceil_8 num) input
      skip_crcs (count_set bitmap 0 num) input
