-- ===== src/Sections/Written.antt =====
-- Section loops on bytes that were written: the end tag, and one section in front of others.
use r7z.Prelude.{suc, ◌≤◌, ◌≡◌, refl, false, ◌∷◌, length, ok, arith}
use r7z.Nom.{Bytes, IResult}
use r7z.Packages.{Packages}
use r7z.Property.{Property}
use r7z.Property.Codes.{to_u8, is_tag}
use r7z.Property.Laws.{parse-to_u8}
use r7z.Sections.{sections, read_sections}
use r7z.Sections.Fuel.{sections-more}

module _ ⦃pk : Packages⦄ where
  module _ {ℓ} {S : Type ℓ} (handle : Property → Bytes → S → IResult S) where
    pub read_sections-end :
        (rest : Bytes) (s : S) → read_sections handle (0x00 ∷ rest) s ≡ ok (rest, s)
    unfolding read_sections sections to_u8 is_tag
    read_sections-end rest s = rw (parse-to_u8 Property.end rest) refl

    -- `body` is what stands behind the tag, `after` what the handler leaves of it.
    pub read_sections-step :
        (tag : Property) (body after : Bytes) (s t : S) (r : Bytes × S)
        → is_tag tag Property.end ≡ false
        → handle tag body s ≡ ok (after, t)
        → length after ≤ length body
        → read_sections handle after t ≡ ok r
        → read_sections handle (to_u8 tag ∷ body) s ≡ ok r
    unfolding read_sections sections
    read_sections-step tag body after s t r other handled shorter later =
        rw (parse-to_u8 tag body, other, handled)
          (sections-more handle (suc (length after)) (suc (length body)) after t r (omega arith)
            later)
