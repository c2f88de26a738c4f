-- ===== src/Parsers/Decode.antt =====
-- src/parsers.rs: `sevenzip_varuint64_decode` on any input, well formed or not.
use r7z.Prelude.{
  ℕ, zero, suc, ◌+◌, ◌*◌, ◌/◌, ◌%◌, ◌≤◌, ◌≡◌, refl, [], ◌∷◌, ◌++◌, length, length-append, arith,
  IsU64, Bool-cases, ap, ◌==◌, ok, err, word_mod, bit_or, bit_and, ◌⊎◌, inl, inr, ◌-◌, append-nil,
}
use r7z.Nom.{Bytes, error, eof}
use r7z.Parsers.{decode_loop, sevenzip_varuint64_decode, sevenzip_varuint64_encode, shl64}
use r7z.Parsers.RoundTrip.{decode-encode}

-- A successful run leaves a suffix of what it was given, at most `n` bytes shorter.
decode_loop_suffix :
    (n i fb mask value : ℕ) (input src rest : Bytes) (v : ℕ)
    → decode_loop n i fb mask value input src ≡ ok (rest, v)
    → (used : Bytes) × (src ≡ used ++ rest) × (length used ≤ n)
unfolding decode_loop
decode_loop_suffix zero i fb mask value input src rest v e = ([], ground arith, omega arith)
decode_loop_suffix (suc n) i fb mask value input [] rest v e = ([], ground arith, omega arith)
decode_loop_suffix (suc n) i fb mask value input (b ∷ src) rest v e =
    elim (Bool-cases (bit_and fb mask == 0)) [
      | inl last ↦ ([], ground arith, omega arith)
      | inr more ↦
          let (used, eq, short) =
            decode_loop_suffix n (i + 1) fb (mask / 2) (bit_or value (shl64 b (8 * i))) input src
              rest v (rw more at e) in
          (b ∷ used, ap (λ t. b ∷ t) eq, omega arith)
    ]

decode_loop-append :
    (n i fb mask value : ℕ) (input input' src more rest : Bytes) (v : ℕ)
    → decode_loop n i fb mask value input src ≡ ok (rest, v)
    → decode_loop n i fb mask value input' (src ++ more) ≡ ok (rest ++ more, v)
unfolding decode_loop
decode_loop-append zero i fb mask value input input' src more rest v e = ground arith
decode_loop-append (suc n) i fb mask value input input' [] [] rest v e = ground arith
decode_loop-append (suc n) i fb mask value input input' [] (m ∷ more) rest v e = ground arith
decode_loop-append (suc n) i fb mask value input input' (b ∷ src) more rest v e = ground (
  arith,
  decode_loop-append n (i + 1) fb (mask / 2) (bit_or value (shl64 b (8 * i))) input input' src more
      rest v,
)

decode_loop_cases :
    (n i fb mask value : ℕ) (input src : Bytes)
    → ((p : Bytes × ℕ) × (decode_loop n i fb mask value input src ≡ ok p))
      ⊎ (decode_loop n i fb mask value input src ≡ err (error input eof))
unfolding decode_loop
decode_loop_cases zero i fb mask value input src = inl ((src, value), refl)
decode_loop_cases (suc n) i fb mask value input [] = elim (Bool-cases (bit_and fb mask == 0)) [
  | inl last ↦ inl (([], (value + shl64 (bit_and fb (mask - 1)) (8 * i)) % word_mod), rw last)
  | inr more ↦ inr (rw more)
]
decode_loop_cases (suc n) i fb mask value input (b ∷ src) =
    elim (Bool-cases (bit_and fb mask == 0)) [
      | inl last ↦
          inl ((b ∷ src, (value + shl64 (bit_and fb (mask - 1)) (8 * i)) % word_mod), rw last)
      | inr more ↦
          rw more
            (decode_loop_cases n (i + 1) fb (mask / 2) (bit_or value (shl64 b (8 * i))) input src)
    ]

-- Decoding gives a value with what is left, or the error `Eof` at the whole input.
pub decode_cases :
    (input : Bytes)
    → ((p : Bytes × ℕ) × (sevenzip_varuint64_decode input ≡ ok p))
      ⊎ (sevenzip_varuint64_decode input ≡ err (error input eof))
unfolding sevenzip_varuint64_decode
decode_cases [] = inr refl
decode_cases (b ∷ src) = decode_loop_cases 8 0 b 0x80 0 (b ∷ src) src

-- If the decoder succeeds, what is left is a suffix of the input, one to nine bytes shorter.
pub decode_suffix :
    (input rest : Bytes) (v : ℕ)
    → sevenzip_varuint64_decode input ≡ ok (rest, v)
    → (used : Bytes) × (input ≡ used ++ rest) × (1 ≤ length used) × (length used ≤ 9)
unfolding sevenzip_varuint64_decode
decode_suffix [] rest v e = cc
decode_suffix (b ∷ src) rest v e =
    let (used, eq, short) = decode_loop_suffix 8 0 b 0x80 0 (b ∷ src) src rest v e in
    (b ∷ used, ap (λ t. b ∷ t) eq, omega arith, omega arith)

-- If the decoder succeeds, bytes added behind the input only join what is left.
decode-append :
    (input more rest : Bytes) (v : ℕ)
    → sevenzip_varuint64_decode input ≡ ok (rest, v)
    → sevenzip_varuint64_decode (input ++ more) ≡ ok (rest ++ more, v)
unfolding sevenzip_varuint64_decode
decode-append [] more rest v e = cc
decode-append (b ∷ src) more rest v e =
    decode_loop-append 8 0 b 0x80 0 (b ∷ src) (b ∷ (src ++ more)) src more rest v e

-- Every proper prefix of the encoding of a `u64` is refused with `Eof` at the prefix itself.
pub decode_truncated :
    (v x : ℕ) (front back : Bytes)
    → IsU64 v
    → sevenzip_varuint64_encode v ≡ front ++ (x ∷ back)
    → sevenzip_varuint64_decode front ≡ err (error front eof)
decode_truncated v x front back h e = elim (decode_cases front) [
  | inr refused ↦ refused
  | inl ((rest, u), r) ↦
      ground (arith, whole, decode-append front (x ∷ back) rest u r, length-append rest (x ∷ back))
]
  where
    whole : sevenzip_varuint64_decode (front ++ (x ∷ back)) ≡ ok ([], v)
    whole = rw (append-nil, e) at (decode-encode v [] h)
