-- ===== src/Property/Laws.antt =====
-- src/property.rs: a tag behind its code.
use r7z.Prelude.{◌≡◌, ◌∷◌, ok}
use r7z.Nom.{Bytes}
use r7z.Packages.{Packages}
use r7z.Property
use r7z.Property.{Property, to_u8, is_tag, from_u8}

module _ ⦃pk : Packages⦄ where
  -- The tag that is written as a byte is the tag that is read.
  pub parse-to_u8 :
      (tag : Property) (rest : Bytes) → Property.parse (to_u8 tag ∷ rest) ≡ ok (rest, tag)
  unfolding Property.parse
  parse-to_u8 tag rest = rw (pk.property_from_u8-to_u8 tag)
