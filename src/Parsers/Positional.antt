-- ===== src/Parsers/Positional.antt =====
-- src/parsers.rs: `sevenzip_varuint64_decode` as a number in base 256.
use r7z.Prelude.{
  ℕ, zero, suc, ◌+◌, ◌-◌, ◌*◌, ◌/◌, ◌%◌, ◌^◌, ◌≤◌, ◌<◌, ◌≡◌, refl, sym, ap, ◌∙◌, false, [], ◌∷◌,
  length, take, drop, All, arith, Bool-cases, inl, inr, ltb, leb, leb→le, lt→ltb, ==_iff, ◌==◌, ok,
  err, if◌then◌else◌, word_mod, bit_or,
}
use r7z.Prelude.Bits.{bit_or_fields, all_below, all_below_sound}
use r7z.Nom.{Bytes, IResult, IsByte, error, eof}
use r7z.Parsers.{decode_loop, sevenzip_varuint64_decode, shl64}
use r7z.Parsers.Leading.{
  leading_ones, low_bits, at_most_8, low_bits_none, low_bits_small, last_round, set_round,
}
use r7z.Parsers.Weights.{byte_fits, pow_byte}

-- The number of bytes in base 256, the lowest first.
abbrev pub le_value : Bytes → ℕ
le_value [] = 0
le_value (b ∷ bs) = b + 256 * le_value bs

-- The bytes are read as the first byte says, or are too few.
abbrev pub positional : ℕ → Bytes → Bytes → ℕ → (weight count : ℕ) → IResult ℕ
positional first input src value weight count =
    if ltb (length src) count
    then err (error input eof)
    else ok (
      drop count src,
      value + weight * (le_value (take count src) + low_bits first * 256 ^ count),
    )

pow_le : (i : ℕ) → i < 8 → 2 ^ (8 * (i + 1)) ≤ word_mod
unfolding all_below
pow_le i h = leb→le _ _ (all_below_sound 8 (λ i. leb (2 ^ (8 * (i + 1))) word_mod) i refl h)

-- One more byte, put above the ones before it.
byte_added :
    (b i value : ℕ)
    → b < 256
    → i < 8
    → value < 2 ^ (8 * i)
    → (bit_or value (shl64 b (8 * i)) ≡ value + b * 2 ^ (8 * i))
      × (value + b * 2 ^ (8 * i) < 2 ^ (8 * (i + 1)))
byte_added b i value hb hi small = (
  ground (arith, bit_or_fields (8 * i) value b, byte_fits b i hb, pow_le i hi),
  omega (arith, byte_fits b i hb),
)

-- The low bits of the first byte, added above the bytes before them.
low_added :
    (b i value : ℕ)
    → b < 256
    → i < 8
    → value < 2 ^ (8 * i)
    → (value + shl64 (low_bits b) (8 * i)) % word_mod ≡ value + low_bits b * 2 ^ (8 * i)
low_added b i value hb hi small =
    ground (arith, byte_fits (low_bits b) i (low_bits_small b hb), pow_le i hi)

half : (k : ℕ) → 2 ^ suc k / 2 ≡ 2 ^ k
half k = omega arith

none_below : (n : ℕ) → ltb n 0 ≡ false
none_below n = ground arith

suc_below : (n m : ℕ) → ltb (suc n) (suc m) ≡ ltb n m
suc_below n m = ground arith

pow_suc : (n : ℕ) → 256 ^ suc n ≡ 256 * 256 ^ n
pow_suc n = omega arith

positional-zero :
    (first : ℕ) (input src : Bytes) (value weight : ℕ)
    → positional first input src value weight 0 ≡ ok (src, value + weight * low_bits first)
positional-zero first input src value weight =
    rw (none_below (length src)) (ap (λ v. ok (src, v)) (omega arith))

shift_weight :
    (v w n l h p : ℕ) → v + w * (n + 256 * l + h * (256 * p)) ≡ v + n * w + 256 * w * (l + h * p)
shift_weight v w n l h p = omega arith

positional-suc :
    (first : ℕ) (input src : Bytes) (next value weight count : ℕ)
    → positional first input (next ∷ src) value weight (suc count)
      ≡ positional first input src (value + next * weight) (256 * weight) count
positional-suc first input src next value weight count = rw (suc_below (length src) count) (
    ap (λ v. if ltb (length src) count then err (error input eof) else ok (drop count src, v))
      (ap (λ p. value + weight * (next + 256 * le_value (take count src) + low_bits first * p))
          (pow_suc count)
        ∙ shift_weight value weight next (le_value (take count src)) (low_bits first)
            (256 ^ count)))

-- No byte is left to read.
ends_here :
    (i first value read : ℕ) (input src : Bytes)
    → leading_ones first ≡ i
    → read ≡ value + low_bits first * 2 ^ (8 * i)
    → ◌≡◌ {A = IResult ℕ}
        (ok (src, read))
        (positional first input src value (2 ^ (8 * i)) (leading_ones first - i))
ends_here i first value read input src at e =
    let none : 0 ≡ leading_ones first - i = omega arith in
    let sum : read ≡ value + 2 ^ (8 * i) * low_bits first = omega arith in
    ap (λ v. ok (src, v)) sum
    ∙ sym (positional-zero first input src value (2 ^ (8 * i)))
    ∙ ap (positional first input src value (2 ^ (8 * i))) none

-- The round whose bit ends the count.
ending_round :
    (k i first value : ℕ) (input src : Bytes)
    → i + suc k ≡ 8
    → leading_ones first ≡ i
    → first < 256
    → value < 2 ^ (8 * i)
    → decode_loop (suc k) i first (2 ^ suc k / 2) value input src
      ≡ positional first input src value (2 ^ (8 * i)) (leading_ones first - i)
unfolding decode_loop
ending_round k i first value input [] hi at hf small =
    let (clear, low) = last_round k first (omega arith) hf (omega arith) in
    rw (half k, clear, low)
      (ends_here i first value _ input [] at (low_added first i value hf (omega arith) small))
ending_round k i first value input (next ∷ src) hi at hf small =
    let (clear, low) = last_round k first (omega arith) hf (omega arith) in
    rw (half k, clear, low)
      (ends_here i first value _ input (next ∷ src) at
        (low_added first i value hf (omega arith) small))

-- A round that reads a byte, with what the rounds behind it read.
reading_round :
    (k i first value : ℕ) (input : Bytes) (next : ℕ) (src : Bytes)
    → i + suc k ≡ 8
    → i < leading_ones first
    → first < 256
    → bit_or value (shl64 next (8 * i)) ≡ value + next * 2 ^ (8 * i)
    → decode_loop k (i + 1) first (2 ^ k / 2) (value + next * 2 ^ (8 * i)) input src
      ≡ positional first input src
          (value + next * 2 ^ (8 * i))
          (2 ^ (8 * (i + 1)))
          (leading_ones first - (i + 1))
    → decode_loop (suc k) i first (2 ^ suc k / 2) value input (next ∷ src)
      ≡ positional first input (next ∷ src) value (2 ^ (8 * i)) (leading_ones first - i)
unfolding decode_loop
reading_round k i first value input next src hi above hf added behind =
    let left = leading_ones first - (i + 1) in
    let count : suc left ≡ leading_ones first - i = omega arith in
    rw (half k, set_round k first (omega arith) hf (omega arith), ← count, added)
      (behind
        ∙ ap (λ w. positional first input src (value + next * 2 ^ (8 * i)) w left) (pow_byte i)
        ∙ sym (positional-suc first input src next value (2 ^ (8 * i)) left))

decode_loop-positional :
    (n i first value : ℕ) (input src : Bytes)
    → i + n ≡ 8
    → i ≤ leading_ones first
    → first < 256
    → value < 2 ^ (8 * i)
    → All IsByte src
    → decode_loop n i first (2 ^ n / 2) value input src
      ≡ positional first input src value (2 ^ (8 * i)) (leading_ones first - i)
unfolding decode_loop
decode_loop-positional zero i first value input src hi ho hf small bytes =
    let full : leading_ones first ≡ 8 = omega (arith, at_most_8 first) in
    ends_here i first value value input src (omega arith)
      (omega (arith, ap (λ (t : ℕ). t * 2 ^ (8 * i)) (low_bits_none first full)))
decode_loop-positional (suc k) i first value input [] hi ho hf small bytes =
    elim (Bool-cases (leading_ones first == i)) [
      | inl same ↦
          ending_round k i first value input [] hi ((==_iff (leading_ones first) i).0 same) hf small
      | inr more ↦
          let above : i < leading_ones first = ground arith in
          rw
            (
              half k,
              set_round k first (omega arith) hf (omega arith),
              lt→ltb 0 (leading_ones first - i) (omega arith),
            )
            refl
    ]
decode_loop-positional (suc k) i first value input (next ∷ src) hi ho hf small bytes =
    elim (Bool-cases (leading_ones first == i)) [
      | inl same ↦
          ending_round k i first value input (next ∷ src) hi
            ((==_iff (leading_ones first) i).0 same) hf small
      | inr more ↦
          let above : i < leading_ones first = ground arith in
          let (added, fits) = byte_added next i value bytes.0 (omega arith) small in
          reading_round k i first value input next src hi above hf added (
            decode_loop-positional k (i + 1) first (value + next * 2 ^ (8 * i)) input src
              (omega arith) (omega arith) hf fits bytes.1)
    ]

-- From bytes, the decoder reads as many bytes behind the first one as that one has leading ones, and
-- gives them as a number in base 256 with the lowest byte first, above which the low bits of the
-- first byte are put. If there are too few bytes, the error is `Eof` at the input.
pub decode-positional :
    (first : ℕ) (src : Bytes)
    → All IsByte (first ∷ src)
    → sevenzip_varuint64_decode (first ∷ src)
      ≡ positional first (first ∷ src) src 0 1 (leading_ones first)
unfolding sevenzip_varuint64_decode
decode-positional first src (hf, bytes) =
    decode_loop-positional 8 0 first 0 (first ∷ src) src refl (omega arith) hf (omega arith) bytes
    ∙ ap (positional first (first ∷ src) src 0 1) (omega arith)
