-- ===== src/Sections/Fuel.antt =====
-- The fuel of the section loops.
use r7z.Prelude.{
  ℕ, zero, suc, ◌⊎◌, Option-cases, ◌-◌, ◌≤◌, ◌<◌, ◌≡◌, refl, ap, [], ◌∷◌, length, length-append,
  length-drop, leb, ok, err, >>=-eq-ok, arith, Bool-cases, inl, inr,
}
use r7z.Nom.{Bytes, IResult, ParseError, error, satisfy}
use r7z.Nom.Consumes.{
  Consumes, leaves, fails, Consumes-bind, Consumes-step, Consumes-if, Consumes-weaken,
  Returns-ok_or,
}
use r7z.Packages.{Packages}
use r7z.Property
use r7z.Property.{Property, is_tag, end, from_u8}
use r7z.Parsers.{sevenzip_varuint64_decode}
use r7z.Parsers.Decode.{decode_cases, decode_suffix}
use r7z.Sections.{skip_sized, sections, read_sections}

-- The varint takes a byte at least.
pub decode-Consumes : (input : Bytes) → Consumes (length input) (sevenzip_varuint64_decode input)
decode-Consumes input = elim (decode_cases input) [
  | inl ((rest, v), e) ↦
      let (used, eq, some_byte, short) = decode_suffix input rest v e in
      rw e (leaves (omega (arith, ap length eq, length-append used rest)))
  | inr e ↦ rw e fails
]

module _ ⦃pk : Packages⦄ where
  pub take_complete-Consumes :
      (n : ℕ) (input : Bytes) → Consumes (length input) (pk.take_complete n input)
  take_complete-Consumes n input =
      rw (pk.take_complete_lem n input)
        (Consumes-if (leb n (length input)) (leaves (omega (arith, length-drop n input))) fails)

  pub le_u8-Consumes : (input : Bytes) → Consumes (length input) (pk.le_u8 input)
  le_u8-Consumes [] = rw pk.le_u8-nil fails
  le_u8-Consumes (b ∷ rest) = rw (pk.le_u8-cons b rest) (leaves (omega arith))

  pub le_u32-Consumes : (input : Bytes) → Consumes (length input) (pk.le_u32 input)
  le_u32-Consumes [] = rw (pk.le_u32-short [] (omega arith)) fails
  le_u32-Consumes (a ∷ []) = rw (pk.le_u32-short (a ∷ []) (omega arith)) fails
  le_u32-Consumes (a ∷ b ∷ []) = rw (pk.le_u32-short (a ∷ b ∷ []) (omega arith)) fails
  le_u32-Consumes (a ∷ b ∷ c ∷ []) = rw (pk.le_u32-short (a ∷ b ∷ c ∷ []) (omega arith)) fails
  le_u32-Consumes (a ∷ b ∷ c ∷ d ∷ rest) = rw (pk.le_u32-cons a b c d rest) (leaves (omega arith))

  -- A tag is one byte.
  pub parse_tag_cases :
      (input : Bytes)
      → ((rest : Bytes) × (tag : Property) × (Property.parse input ≡ ok (rest, tag))
          × (length input ≡ suc (length rest)))
        ⊎ ((e : ParseError) × (Property.parse input ≡ err e))
  unfolding Property.parse
  parse_tag_cases [] = inr (_, refl)
  parse_tag_cases (b ∷ rest) = elim (Option-cases (pk.property_from_u8 b)) [
    | inl none' ↦ inr (error (b ∷ rest) satisfy, rw none')
    | inr (tag, e) ↦ inl (rest, tag, rw e, refl)
  ]

  pub parse_tag-Consumes : (input : Bytes) → Consumes (length input - 1) (Property.parse input)
  parse_tag-Consumes input = elim (parse_tag_cases input) [
    | inr (e, refused) ↦ rw refused fails
    | inl (rest, tag, e, len) ↦ rw e (leaves (omega arith))
  ]

  pub skip_sized-Consumes : (input : Bytes) → Consumes (length input) (skip_sized input)
  unfolding skip_sized
  skip_sized-Consumes input = Consumes-bind (decode-Consumes input) λ (i, size) h.
      Consumes-step (Returns-ok_or _ _)
        λ n. Consumes-bind (take_complete-Consumes n i) λ (j, _) k. leaves (omega arith)

  module _ {ℓ} {S : Type ℓ} (handle : Property → Bytes → S → IResult S)
      (good : (tag : Property) (input : Bytes) (s : S)
        → Consumes (length input) (handle tag input s)) where
    pub sections-Consumes :
        (fuel : ℕ) (input : Bytes) (s : S)
        → length input < fuel
        → Consumes (length input) (sections handle fuel input s)
    unfolding sections
    sections-Consumes zero input s h = absurd (omega arith)
    sections-Consumes (suc fuel) input s h = elim (parse_tag_cases input) [
      | inr (e, refused) ↦ rw refused fails
      | inl (rest, tag, e, len) ↦ rw e (
          Consumes-if (is_tag tag end) (leaves (omega arith)) (
            Consumes-bind (good tag rest s)
              λ (i, t) k. Consumes-weaken (sections-Consumes fuel i t (omega arith)) (omega arith)))
    ]

    -- The loop returns on every input.
    pub read_sections-Consumes :
        (input : Bytes) (s : S) → Consumes (length input) (read_sections handle input s)
    unfolding read_sections
    read_sections-Consumes input s = sections-Consumes (suc (length input)) input s (omega arith)

  module _ {ℓ} {S : Type ℓ} (handle : Property → Bytes → S → IResult S) where
    -- A run that succeeds is the same with more fuel.
    pub sections-more :
        (fuel more : ℕ) (input : Bytes) (s : S) (r : Bytes × S)
        → fuel ≤ more
        → sections handle fuel input s ≡ ok r
        → sections handle more input s ≡ ok r
    unfolding sections
    sections-more zero more input s r h e = cc
    sections-more (suc fuel) zero input s r h e = absurd (omega arith)
    sections-more (suc fuel) (suc more) input s r h e =
        let ((rest, tag), e₁, k₁) = >>=-eq-ok (Property.parse input) _ e in
        rw e₁ (elim (Bool-cases (is_tag tag end)) [
          | inl stop ↦ rw stop (rw stop at k₁)
          | inr go ↦
              let ((i, t), e₂, k₂) = >>=-eq-ok (handle tag rest s) _ (rw go at k₁) in
              rw (go, e₂) (sections-more fuel more i t r (omega arith) k₂)
        ])
