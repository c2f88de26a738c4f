-- ===== src/Digests/Scan.antt =====
-- src/parsers.rs, src/pack_info.rs and src/stream_info.rs: `scan_digests` and `parse_stream_digests`
-- against `parse_digests`.
use r7z.Prelude.{
  ℕ, zero, suc, ◌+◌, ◌*◌, ◌≤◌, ◌<◌, ◌≡◌, refl, sym, ◌∙◌, ap, not, Option, none, some, List, [], ◌∷◌,
  length, drop, length-drop, ok, err, out_of_fuel, ◌>>=◌, >>=-assoc, ok_or, to_option,
  to_option-cong, length-append, if◌then◌else◌, ltb, leb, ◌==◌, checked_mul, div_ceil_8, word_mod,
  arith, Bool-cases, inl, inr,
}
use r7z.Nom.{Bytes, IResult, map_value, error, eof, too_large}
use r7z.Packages.{Packages}
use r7z.Packages.Laws.{take_complete-eq-ok}
use r7z.Parsers.{count_set, scan_digests, skip_crcs}
use r7z.Digests.{
  is_defined, parse_bitmap, read_crcs, parse_digests, parse_stream_digests, num_defined,
}
use native.Mathlib.Decide.{dec_le}

-- The indices from `from` on that are defined.
abbrev pub defined_from : ℕ → Bytes → ℕ → ℕ → ℕ
defined_from all_defined bitmap from zero = 0
defined_from all_defined bitmap from (suc num) =
    (if is_defined all_defined bitmap from then 1 else 0)
    + defined_from all_defined bitmap (from + 1) num

-- `num_defined` counts them.
num_defined-eq :
    (all_defined : ℕ) (bitmap : Bytes) (from num : ℕ)
    → defined_from all_defined bitmap from num
      ≡ (if not (all_defined == 0) then num else count_set bitmap from num)
unfolding count_set
num_defined-eq all_defined bitmap from zero = ground arith
num_defined-eq all_defined bitmap from (suc num) =
    ground (arith, num_defined-eq all_defined bitmap (from + 1) num)

drop-nil {ℓ} : {A : Type ℓ} (n : ℕ) → drop {A = A} n [] ≡ []
drop-nil zero = refl
drop-nil (suc n) = refl

drop-drop {ℓ} : {A : Type ℓ} (m n : ℕ) (xs : List A) → drop n (drop m xs) ≡ drop (m + n) xs
drop-drop zero n xs = let e : n ≡ 0 + n = omega arith in ap (λ k. drop k xs) e
drop-drop (suc m) n [] = drop-nil n ∙ sym (drop-nil (suc m + n))
drop-drop (suc m) n (x ∷ xs) =
    let e : suc m + n ≡ suc (m + n) = omega arith in rw e (drop-drop m n xs)

-- The outcome of reading `k` bytes.
abbrev room : ℕ → Bytes → Option (Bytes × Unit {0})
room k input = if leb k (length input) then some (drop k input, tt) else none

room-drop :
    (k n : ℕ) (input : Bytes) → n ≤ length input → room k (drop n input) ≡ room (n + k) input
room-drop k n input h = ground (arith, length-drop n input, drop-drop n k input)

-- A length that is checked in advance changes no outcome of a reader that needs that many bytes.
length_check :
    (k : ℕ) (input : Bytes) (r : IResult (List (Option ℕ)))
    → length input < word_mod
    → to_option (map_value (λ _. tt) r) ≡ room (4 * k) input
    → to_option (do
      crc_bytes ← ok_or (checked_mul k 4) (error input too_large)
      if ltb (length input) crc_bytes then err (error input eof) else r)
      ≡ to_option r
length_check k input (ok a) h e = ground arith
length_check k input (err x) h e = ground arith
length_check k input out_of_fuel h e = ground arith

module _ ⦃pk : Packages⦄ where
  take_complete-shorter :
      (n : ℕ) (input rest xs : Bytes)
      → pk.take_complete n input ≡ ok (rest, xs)
      → length rest ≤ length input
  take_complete-shorter n input rest xs e =
      let (eq, len) = take_complete-eq-ok n input rest xs e in
      omega (arith, ap length eq, length-append xs rest)

  le_u32_drop :
      (input : Bytes) → 4 ≤ length input → (v : ℕ) × (pk.le_u32 input ≡ ok (drop 4 input, v))
  le_u32_drop [] h = absurd (omega arith)
  le_u32_drop (a ∷ []) h = absurd (omega arith)
  le_u32_drop (a ∷ b ∷ []) h = absurd (omega arith)
  le_u32_drop (a ∷ b ∷ c ∷ []) h = absurd (omega arith)
  le_u32_drop (a ∷ b ∷ c ∷ d ∷ rest) h = (_, pk.le_u32-cons a b c d rest)

  -- A table of digests is read exactly if its bytes are there.
  read_crcs_lem :
      (all_defined : ℕ) (bitmap : Bytes) (from num : ℕ) (input : Bytes)
      → to_option (map_value (λ _. tt {0}) (read_crcs all_defined bitmap from num input))
        ≡ room (4 * defined_from all_defined bitmap from num) input
  unfolding read_crcs
  read_crcs_lem all_defined bitmap from zero input = ground arith
  read_crcs_lem all_defined bitmap from (suc num) input =
      let d : ℕ = defined_from all_defined bitmap (from + 1) num in
      elim (Bool-cases (is_defined all_defined bitmap from)) [
        | inl set ↦ rw set (elim (dec_le 4 (length input)) [
          | yes long ↦
              let (v, e) = le_u32_drop input long in
              let k : 4 * (1 + d) ≡ 4 + 4 * d = omega arith in
              rw (e, k)
                (simp (>>=-assoc) (
                  read_crcs_lem all_defined bitmap (from + 1) num (drop 4 input)
                  ∙ room-drop (4 * d) 4 input long))
          | no short ↦ rw (pk.le_u32-short input (omega arith)) (ground arith)
        ])
        | inr unset ↦
            let k : 0 + d ≡ d = omega arith in
            rw (unset, k) (simp (>>=-assoc) (read_crcs_lem all_defined bitmap (from + 1) num input))
      ]

  skip_crcs_lem :
      (n : ℕ) (input : Bytes)
      → length input < word_mod
      → to_option (skip_crcs n input) ≡ room (4 * n) input
  unfolding skip_crcs
  skip_crcs_lem n input h = ground (arith, pk.take_complete_lem (n * 4) input, drop-eq)
    where
      drop-eq : drop (n * 4) input ≡ drop (4 * n) input
      drop-eq = ap (λ k. drop k input) (omega arith)

  -- Behind the flag and the bitmap the two readers take as many bytes.
  crcs_agree :
      (all_defined num : ℕ) (bitmap input : Bytes)
      → length input < word_mod
      → to_option (skip_crcs (num_defined all_defined bitmap num) input)
        ≡ to_option (map_value (λ _. tt) (read_crcs all_defined bitmap 0 num input))
  crcs_agree all_defined num bitmap input h =
      skip_crcs_lem (num_defined all_defined bitmap num) input h
      ∙ ap (λ (k : ℕ). room (4 * k) input) (sym (num_defined-eq all_defined bitmap 0 num))
      ∙ sym (read_crcs_lem all_defined bitmap 0 num input)

  -- On an input shorter than 2^64 bytes, the walk succeeds exactly if the parser of src/pack_info.rs
  -- does, and leaves the same rest.
  pub scan_digests-parse_digests :
      (input : Bytes) (num : ℕ)
      → length input < word_mod
      → to_option (scan_digests input num)
        ≡ to_option (map_value (λ _. tt) (parse_digests input num))
  unfolding scan_digests parse_digests parse_bitmap
  scan_digests-parse_digests [] num h = rw pk.le_u8-nil
  scan_digests-parse_digests (b ∷ rest) num h =
      rw (pk.le_u8-cons b rest) (elim (Bool-cases (b == 0)) [
        | inl some_absent ↦ rw some_absent (
            simp (>>=-assoc) (
              to_option-cong (pk.take_complete (div_ceil_8 num) rest) _ _ λ (i, bm) e.
                rw some_absent at (
                  crcs_agree b num bm i
                    (omega (arith, take_complete-shorter (div_ceil_8 num) rest i bm e)))))
        | inr all ↦ rw all (rw all at (crcs_agree b num [] rest (omega arith)))
      ])

  parse_bitmap-shorter :
      (all_defined num : ℕ) (input rest bitmap : Bytes)
      → parse_bitmap all_defined num input ≡ ok (rest, bitmap)
      → length rest ≤ length input
  unfolding parse_bitmap
  parse_bitmap-shorter all_defined num input rest bitmap e =
      ground (arith, take_complete-shorter (div_ceil_8 num) input rest bitmap)

  -- On an input shorter than 2^64 bytes, the parser of src/stream_info.rs, which checks the length
  -- first, succeeds exactly if that of src/pack_info.rs does, with the same digests and the same rest.
  pub parse_stream_digests-parse_digests :
      (input : Bytes) (num : ℕ)
      → length input < word_mod
      → to_option (parse_stream_digests input num) ≡ to_option (parse_digests input num)
  unfolding parse_stream_digests parse_digests
  parse_stream_digests-parse_digests [] num h = rw pk.le_u8-nil
  parse_stream_digests-parse_digests (b ∷ rest) num h = rw (pk.le_u8-cons b rest) (
      to_option-cong (parse_bitmap b num rest) _ _ λ (i, bm) e.
        length_check (num_defined b bm num) i (read_crcs b bm 0 num i)
          (omega (arith, parse_bitmap-shorter b num rest i bm e))
          (read_crcs_lem b bm 0 num i ∙ ap (λ (k : ℕ). room (4 * k) i) (num_defined-eq b bm 0 num)))
