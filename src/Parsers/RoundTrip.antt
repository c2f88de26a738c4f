-- ===== src/Parsers/RoundTrip.antt =====
-- src/parsers.rs: `sevenzip_varuint64_decode` on what `sevenzip_varuint64_encode` wrote.
use r7z.Prelude.{
  ℕ, zero, suc, ◌∙◌, ◌+◌, ◌-◌, ◌*◌, ◌/◌, ◌%◌, ◌^◌, ◌≤◌, ◌<◌, ◌≡◌, ap, [], ◌∷◌, ◌++◌, arith, IsU64,
  ok, bit_and, ◌==◌, false, word_mod,
}
use r7z.Prelude.Bits.{bit_or_fields}
use r7z.Nom.{Bytes, IResult}
use r7z.Parsers.{decode_loop, sevenzip_varuint64_decode, sevenzip_varuint64_encode}
use r7z.Parsers.Weights.{
  lead, clear_mask, low_value, set_mask, two-pow-suc, two-pow_pos, two-pow-le, pow_byte, byte_fits,
}
use r7z.Parsers.Encode.{first_byte, tail_bytes, encode-first-tail}
use native.Mathlib.Nat.{div-add-mod}
use native.Mathlib.Decide.{dec_lt}

first_byte_bounds : (n v : ℕ) → n < 9 → (lead n ≤ first_byte n v) × (first_byte n v < 256)
unfolding first_byte
first_byte_bounds zero v h = omega arith
first_byte_bounds (suc n) v h =
    ground (arith, two-pow-suc n, two-pow_pos n, two-pow-le (suc n), first_byte_bounds n (v / 256))

-- The bit at the mask is set while bytes follow.
more_bit : (n v : ℕ) → n < 8 → (bit_and (first_byte n v) (2 ^ n) == 0) ≡ false
more_bit n v h =
    let (lo, hi) = first_byte_bounds n v (omega arith) in
    let e : lead n + (first_byte n v - lead n) ≡ first_byte n v = omega arith in
    rw e at (set_mask n (first_byte n v - lead n) h (omega (arith, two-pow-le n, two-pow_pos n)))

-- The last round: the value that is left stands in the low bits of the first byte.
last_round :
    (n i w value : ℕ) (input rest : Bytes)
    → n < 8
    → w < 2 ^ n
    → value + w * 2 ^ (8 * i) < word_mod
    → decode_loop (suc n) i (lead (suc n) + w) (2 ^ n) value input rest
      ≡ ok (rest, value + w * 2 ^ (8 * i))
unfolding decode_loop
last_round n i w value input [] hn hw fits = ground (arith, clear_mask n w, low_value n w)
last_round n i w value input (b ∷ rest) hn hw fits = ground (arith, clear_mask n w, low_value n w)

-- A round that takes one more byte.
more_round :
    (n i fb b value : ℕ) (input rest : Bytes)
    → (bit_and fb (2 ^ n) == 0) ≡ false
    → value < 2 ^ (8 * i)
    → b * 2 ^ (8 * i) < word_mod
    → decode_loop (suc n) i fb (2 ^ n) value input (b ∷ rest)
      ≡ decode_loop n (i + 1) fb (2 ^ n / 2) (value + b * 2 ^ (8 * i)) input rest
unfolding decode_loop
more_round n i fb b value input rest set small fits = ground (arith, bit_or_fields (8 * i) value b)

-- The lowest byte of `w` and the rest, both shifted by `8 * i` bits.
split_byte : (w i : ℕ) → w * 2 ^ (8 * i) ≡ w % 256 * 2 ^ (8 * i) + w / 256 * 2 ^ (8 * (i + 1))
split_byte w i = omega (
  arith,
  ap (λ (t : ℕ). t * 2 ^ (8 * i)) (div-add-mod w 256),
  ap (λ (t : ℕ). w / 256 * t) (pow_byte i),
)

first_byte_last : (n w : ℕ) → w < 2 ^ n → first_byte (suc n) w ≡ lead (suc n) + w
unfolding first_byte
first_byte_last n w h = ground arith

first_byte_more : (n w : ℕ) → 2 ^ n ≤ w → first_byte (suc n) w ≡ first_byte n (w / 256)
unfolding first_byte
first_byte_more n w h = ground arith

tail_bytes_last : (n w : ℕ) → w < 2 ^ n → tail_bytes (suc n) w ≡ []
unfolding tail_bytes
tail_bytes_last n w h = ground arith

tail_bytes_more : (n w : ℕ) → 2 ^ n ≤ w → tail_bytes (suc n) w ≡ w % 256 ∷ tail_bytes n (w / 256)
unfolding tail_bytes
tail_bytes_more n w h = ground arith

-- One byte further on, the value that is left still fits.
next_fits :
    (i w value : ℕ)
    → value + w * 2 ^ (8 * i) < word_mod
    → value + w % 256 * 2 ^ (8 * i) + w / 256 * 2 ^ (8 * (i + 1)) < word_mod
next_fits i w value fits = omega (arith, split_byte w i)

-- In the eighth round nothing is left above the byte that is read.
top_byte : (w value : ℕ) → value + w * 2 ^ (8 * 7) < word_mod → w / 256 ≡ 0
top_byte w value fits = omega arith

decode_loop_step :
    (n i w value : ℕ) (input rest : Bytes)
    → i + n ≡ 7
    → value < 2 ^ (8 * i)
    → value + w * 2 ^ (8 * i) < word_mod
    → 2 ^ n ≤ w
    → decode_loop
        (suc n)
        i
        (first_byte (suc n) w)
        (2 ^ n)
        value
        input
        (tail_bytes (suc n) w ++ rest)
      ≡ decode_loop n
          (i + 1)
          (first_byte n (w / 256))
          (2 ^ n / 2)
          (value + w % 256 * 2 ^ (8 * i))
          input
          (tail_bytes n (w / 256) ++ rest)
decode_loop_step n i w value input rest hi small fits h =
    rw (first_byte_more n w h, tail_bytes_more n w h)
      (more_round n i (first_byte n (w / 256)) (w % 256) value input
        (tail_bytes n (w / 256) ++ rest) (more_bit n (w / 256) (omega arith)) small
        (omega (arith, next_fits i w value fits)))

last_byte :
    (w value i : ℕ) (input rest : Bytes)
    → i + 0 ≡ 7
    → value + w * 2 ^ (8 * i) < word_mod
    → decode_loop zero
        (i + 1)
        (first_byte 0 (w / 256))
        (2 ^ 0 / 2)
        (value + w % 256 * 2 ^ (8 * i))
        input
        (tail_bytes 0 (w / 256) ++ rest)
      ≡ ok (rest, value + w * 2 ^ (8 * i))
unfolding decode_loop tail_bytes
last_byte w value i input rest hi fits =
    let e : i ≡ 7 = omega arith in
    let f : w % 256 ≡ w = omega (arith, top_byte w value (rw e at fits)) in rw f

-- The value that the remaining rounds give, put together.
next_rounds :
    (n i w value : ℕ) (input rest : Bytes)
    → w * 2 ^ (8 * i) ≡ w % 256 * 2 ^ (8 * i) + w / 256 * 2 ^ (8 * (i + 1))
    → {r : IResult ℕ} → r ≡ ok (rest, value + w % 256 * 2 ^ (8 * i) + w / 256 * 2 ^ (8 * (i + 1)))
    → r ≡ ok (rest, value + w * 2 ^ (8 * i))
next_rounds n i w value input rest e h = ground arith

half_mask : (n : ℕ) → 2 ^ suc n / 2 ≡ 2 ^ n
half_mask n = omega (arith, two-pow-suc n)

decode_loop_lem :
    (n i w value : ℕ) (input rest : Bytes)
    → i + n ≡ 7
    → value < 2 ^ (8 * i)
    → value + w * 2 ^ (8 * i) < word_mod
    → decode_loop
        (suc n)
        i
        (first_byte (suc n) w)
        (2 ^ n)
        value
        input
        (tail_bytes (suc n) w ++ rest)
      ≡ ok (rest, value + w * 2 ^ (8 * i))
decode_loop_lem zero i w value input rest hi small fits = elim (dec_lt w 1) [
  | yes last ↦
      rw (first_byte_last 0 w last, tail_bytes_last 0 w last)
        (last_round 0 i w value input rest (omega arith) last fits)
  | no more ↦
      decode_loop_step 0 i w value input rest hi small fits (omega arith)
      ∙ last_byte w value i input rest hi fits
]
decode_loop_lem (suc n) i w value input rest hi small fits = elim (dec_lt w (2 ^ suc n)) [
  | yes last ↦
      rw (first_byte_last (suc n) w last, tail_bytes_last (suc n) w last)
        (last_round (suc n) i w value input rest (omega arith) last fits)
  | no more ↦
      decode_loop_step (suc n) i w value input rest hi small fits (omega arith)
      ∙ rw (half_mask n) (
          next_rounds n i w value input rest (split_byte w i) (
            decode_loop_lem n (i + 1) (w / 256) (value + w % 256 * 2 ^ (8 * i)) input rest
              (omega arith) (omega (arith, byte_fits (w % 256) i (omega arith)))
              (next_fits i w value fits)))
]

-- For a `u64`, decoding what was encoded gives the value, and leaves whatever follows it.
pub decode-encode :
    (v : ℕ) (rest : Bytes)
    → IsU64 v
    → sevenzip_varuint64_decode (sevenzip_varuint64_encode v ++ rest) ≡ ok (rest, v)
unfolding sevenzip_varuint64_decode
decode-encode v rest h = rw (encode-first-tail v) (
    decode_loop_lem 7 0 v 0 (first_byte 8 v ∷ (tail_bytes 8 v ++ rest)) rest (omega arith)
      (omega arith) (omega arith)
    ∙ ground arith)
