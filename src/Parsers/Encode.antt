-- ===== src/Parsers/Encode.antt =====
-- src/parsers.rs: what `sevenzip_varuint64_encode` writes, in plain arithmetic.
use r7z.Prelude.{
  ℕ, zero, suc, ◌+◌, ◌/◌, ◌%◌, ◌^◌, ◌<◌, ◌≡◌, [], ◌∷◌, ◌++◌, append_assoc, append-nil, ltb,
  if◌then◌else◌, arith,
}
use r7z.Nom.{Bytes}
use r7z.Parsers.{encode_loop, sevenzip_varuint64_encode}
use r7z.Parsers.Weights.{lead, or_value, or_mask, two-pow-suc, two-pow_pos}

-- With `n` rounds left, and the bits above `2 ^ n` of the first byte set.
unfoldable pub first_byte : ℕ → ℕ → ℕ
first_byte zero v = 255
first_byte (suc n) v =
    let rest = first_byte n (v / 256) in if ltb v (2 ^ n) then lead (suc n) + v else rest

-- The bytes behind the first, the low one first.
unfoldable pub tail_bytes : ℕ → ℕ → Bytes
tail_bytes zero v = []
tail_bytes (suc n) v =
    let rest = tail_bytes n (v / 256) in if ltb v (2 ^ n) then [] else (v % 256) ∷ rest

encode_loop_lem :
    (n v : ℕ) (tail : Bytes)
    → n < 8
    → encode_loop (suc n) v (lead (suc n)) (2 ^ n) tail
      ≡ first_byte (suc n) v ∷ (tail ++ tail_bytes (suc n) v)
unfolding encode_loop first_byte tail_bytes
encode_loop_lem zero v tail h = ground (arith, or_value 0 v, or_mask 0, append-nil tail)
encode_loop_lem (suc n) v tail h = ground (
  arith,
  or_value (suc n) v,
  or_mask (suc n),
  two-pow-suc n,
  two-pow_pos n,
  append-nil tail,
  append_assoc tail (v % 256 ∷ []) (tail_bytes (suc n) (v / 256)),
  encode_loop_lem n (v / 256) (tail ++ (v % 256 ∷ [])),
)

pub encode-first-tail : (v : ℕ) → sevenzip_varuint64_encode v ≡ first_byte 8 v ∷ tail_bytes 8 v
unfolding sevenzip_varuint64_encode
encode-first-tail v = encode_loop_lem 7 v [] (omega arith)
