-- ===== src/FilesInfo/Runs.antt =====
-- src/files_info.rs: runs of the loop over the properties, one block after another.
use r7z.Prelude.{
  ℕ, ◌<◌, ◌≡◌, ◌≢◌, refl, ◌∙◌, true, false, List, [], ◌∷◌, ◌++◌, length, All, ok, ◌==◌, lt→ltb,
  word_mod, bit_or, ◌^◌, arith, length-append,
}
use r7z.Nom.{Bytes}
use r7z.Packages.{Packages}
use r7z.Packages.Laws.{take_complete-append}
use r7z.Parsers.{sevenzip_varuint64_encode}
use r7z.Parsers.RoundTrip.{decode-encode}
use r7z.Property.{Property}
use r7z.Property.Codes.{to_u8, is_tag}
use r7z.Slice.{Slice}
use r7z.Sections.{read_sections}
use r7z.Sections.Written.{read_sections-end, read_sections-step}
use r7z.FilesInfo.{FilesInfo, read_property, property_section, slice_of}
use r7z.FilesInfo.Seen.{is_masked}
use r7z.FilesInfo.Seen.Laws.{bit, bit-bit_or, register_masked}

masked_no_end : (tag : Property) → is_masked tag ≡ true → is_tag tag Property.end ≡ false
unfolding is_tag to_u8
masked_no_end Property.end h = cc
masked_no_end _ h = refl

-- The properties that were not seen yet.
abbrev pub Unset : ℕ → List Property → Type 0
Unset seen tags = All (λ t. bit (to_u8 t) seen ≡ 0) tags

Unset-bit_or :
    (seen : ℕ) (tag : Property) (tags : List Property)
    → All (λ t. to_u8 tag ≢ to_u8 t) tags
    → Unset seen tags
    → Unset (bit_or seen (2 ^ to_u8 tag)) tags
Unset-bit_or seen tag [] d u = tt
Unset-bit_or seen tag (t ∷ tags) (differs, d) (z, u) =
    let apart : (to_u8 tag == to_u8 t) ≡ false = ground arith in
    (bit-bit_or (to_u8 tag) (to_u8 t) seen ∙ rw apart z, Unset-bit_or seen tag tags d u)

unset_passes :
    (seen : ℕ) (tag : Property) → bit (to_u8 tag) seen ≡ 0 → (bit (to_u8 tag) seen == 0) ≡ true
unset_passes seen tag z = ground arith

module _ ⦃pk : Packages⦄ (n : ℕ) (backing : Slice) (external_data : List Bytes) (finish : ℕ) where
  -- From a state in which none of the properties was seen, the loop ends with these files.
  pub record Reads (input : Bytes) (files : FilesInfo) (tags : List Property) (rest : Bytes)
      (files' : FilesInfo) : Type 0 where
    pub runs :
        (seen : ℕ)
        → Unset seen tags
        → (seen' : ℕ) × (read_sections
              (property_section n backing external_data finish)
              input
              (files, seen)
            ≡ ok (rest, (files', seen')))

  pub run_end : (rest : Bytes) (files : FilesInfo) → Reads (0x00 ∷ rest) files [] rest files
  run_end rest files = record {
    runs = λ seen _. (
      seen,
      read_sections-end (property_section n backing external_data finish) rest (files, seen),
    );
  }

  -- A property that is not written.
  pub run_skip :
      {input rest : Bytes} {files files' : FilesInfo} (tag : Property) {tags : List Property}
      → Reads input files tags rest files'
      → Reads input files (tag ∷ tags) rest files'
  run_skip tag reads = record { runs = λ seen u. reads.runs seen u.1 }

  property_section-block :
      (tag : Property) (block after : Bytes) (files files₁ : FilesInfo) (seen : ℕ)
      → is_masked tag ≡ true
      → length block < word_mod
      → bit (to_u8 tag) seen ≡ 0
      → ((inp : Bytes)
          → read_property n backing external_data tag inp
              (slice_of finish (block ++ after) block)
              files
            ≡ ok files₁)
      → property_section n backing external_data finish tag
          (sevenzip_varuint64_encode (length block) ++ (block ++ after))
          (files, seen)
        ≡ ok (after, (files₁, bit_or seen (2 ^ to_u8 tag)))
  unfolding property_section
  property_section-block tag block after files files₁ seen masked fits z reads =
      let body = sevenzip_varuint64_encode (length block) ++ (block ++ after) in
      rw
        (
          register_masked seen tag body masked,
          unset_passes seen tag z,
          decode-encode (length block) (block ++ after) fits,
          lt→ltb (length block) word_mod fits,
          take_complete-append block after,
          reads body,
        )
        refl

  -- A block of a property in front of others.
  pub run_block :
      (tag : Property) (block : Bytes) {after rest : Bytes} {files files₁ files' : FilesInfo}
      {tags : List Property}
      → is_masked tag ≡ true
      → length block < word_mod
      → All (λ t. to_u8 tag ≢ to_u8 t) tags
      → ((inp : Bytes)
          → read_property n backing external_data tag inp
              (slice_of finish (block ++ after) block)
              files
            ≡ ok files₁)
      → Reads after files₁ tags rest files'
      → Reads
          (to_u8 tag ∷ (sevenzip_varuint64_encode (length block) ++ (block ++ after)))
          files
          (tag ∷ tags)
          rest
          files'
  run_block tag block {after} {rest} {files} {files₁} {files'} {tags} masked fits d reads later =
      record {
        runs = λ seen (z, u).
            let (seen', e) =
              later.runs (bit_or seen (2 ^ to_u8 tag)) (Unset-bit_or seen tag tags d u) in
            (
              seen',
              read_sections-step (property_section n backing external_data finish) tag
                  (sevenzip_varuint64_encode (length block) ++ (block ++ after)) after (files, seen)
                  (files₁, bit_or seen (2 ^ to_u8 tag)) (rest, (files', seen'))
                  (masked_no_end tag masked)
                  (property_section-block tag block after files files₁ seen masked fits z reads)
                  (omega (
                    arith,
                    length-append (sevenzip_varuint64_encode (length block)) (block ++ after),
                    length-append block after,
                  ))
                  e,
            );
      }
