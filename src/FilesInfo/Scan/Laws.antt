-- ===== src/FilesInfo/Scan/Laws.antt =====
-- src/files_info.rs: the parser and the scanner of the file block.
use r7z.Prelude.{
  ℕ, zero, suc, ◌+◌, ◌≡◌, refl, sym, ap, ◌∙◌, Bool, false, List, length, ok, err, Result,
  out_of_fuel, ◌>>=◌, ok_or, >>=-eq-ok, arith, try_usize,
}
use r7z.Nom.{Bytes, IResult, ParseError, error, too_large}
use r7z.Nom.Tracks.{
  Tracks, both, exhausted, Tracks-same, Tracks-first, Tracks-step, Tracks-if, Tracks-eq-ok,
}
use r7z.Packages.{Packages}
use r7z.Parsers.{sevenzip_varuint64_decode}
use r7z.Property
use r7z.Property.{Property, is_tag, end, files_info}
use r7z.Slice.{Slice, bytes_subslice}
use r7z.Sections.{sections, read_sections}
use r7z.PackInfo.{expect_tag}
use r7z.FilesInfo.{
  FilesInfo, Loop, read_property, property_section, parse_with_external, no_properties, slice_of,
  defined_u64, defined_u32,
}
use r7z.FilesInfo.Names.{validate_name_data}
use r7z.FilesInfo.Values.{property_data}
use r7z.FilesInfo.Seen.{register}
use r7z.FilesInfo.Scan.{scan_property, scan_files_info_with_external}

-- One loop follows another, when its rounds do.
module _ {ℓ κ μ} ⦃pk : Packages⦄ {S : Type ℓ} {T : Type κ} (R : S → T → Type μ)
    (first : Property → Bytes → S → IResult S) (second : Property → Bytes → T → IResult T)
    (follows : (tag : Property) (input : Bytes) (s : S) (t : T)
      → R s t
      → Tracks R (first tag input s) (second tag input t)) where
  sections-Tracks :
      (fuel : ℕ) (input : Bytes) (s : S) (t : T)
      → R s t
      → Tracks R (sections first fuel input s) (sections second fuel input t)
  unfolding sections
  sections-Tracks zero input s t r = exhausted
  sections-Tracks (suc fuel) input s t r = Tracks-same (Property.parse input) λ (i, tag) e.
      Tracks-if (is_tag tag end) (both r)
        (Tracks-step _ _ (follows tag i s t r) λ rest s' t' r'. sections-Tracks fuel rest s' t' r')

stored {ℓ} :
    {A : Type ℓ} (m : Result ParseError A) (store : A → FilesInfo) (num : ℕ) (files : FilesInfo)
    → ((a : A) → (store a).num_files ≡ num)
    → (m >>= λ a. ok (store a)) ≡ ok files
    → files.num_files ≡ num
stored (ok a) store num files h e =
    let same : store a ≡ files = cc in ap (λ (f : FilesInfo). f.num_files) (sym same) ∙ h a
stored (err r) store num files h e = cc
stored out_of_fuel store num files h e = cc

-- No property changes the number of files.
read_property-num_files :
    (n : ℕ) (backing : Slice) (external_data : List Bytes) (tag : Property) (input : Bytes)
    (block : Slice) (files files' : FilesInfo)
    → read_property n backing external_data tag input block files ≡ ok files'
    → files'.num_files ≡ files.num_files
unfolding read_property
read_property-num_files n backing ext Property.name input block files files' e =
    let (v, e₁, k₁) = >>=-eq-ok (property_data input block backing ext) _ e in
    stored (validate_name_data v n input) (λ _. record files { name_data = v }) _ files' (λ _. refl)
      k₁
read_property-num_files n backing ext Property.ctime input block files files' e =
    stored (defined_u64 n backing ext input block) (λ v. record files { ctimes = v }) _ files'
      (λ _. refl) e
read_property-num_files n backing ext Property.atime input block files files' e =
    stored (defined_u64 n backing ext input block) (λ v. record files { atimes = v }) _ files'
      (λ _. refl) e
read_property-num_files n backing ext Property.mtime input block files files' e =
    stored (defined_u64 n backing ext input block) (λ v. record files { mtimes = v }) _ files'
      (λ _. refl) e
read_property-num_files n backing ext Property.start_pos input block files files' e =
    stored (defined_u64 n backing ext input block) (λ v. record files { start_positions = v }) _
      files' (λ _. refl) e
read_property-num_files n backing ext Property.attributes input block files files' e =
    stored (defined_u32 n backing ext input block) (λ v. record files { attributes = v }) _ files'
      (λ _. refl) e
read_property-num_files n backing ext Property.empty_stream input block files files' e =
    stored (bytes_subslice backing block input) (λ b. record files { empty_streams = b }) _ files'
      (λ _. refl) e
read_property-num_files n backing ext Property.empty_file input block files files' e =
    stored (bytes_subslice backing block input) (λ b. record files { empty_files = b }) _ files'
      (λ _. refl) e
read_property-num_files n backing ext Property.anti input block files files' e =
    stored (bytes_subslice backing block input) (λ b. record files { anti_items = b }) _ files'
      (λ _. refl) e
read_property-num_files n backing ext tag input block files files' e = ground arith

-- The state of the scan goes with any files of the same number.
abbrev Counts : ℕ → Loop → Bool → Type 0
Counts num s uses = s.0.num_files ≡ num

module _ ⦃pk : Packages⦄ where
  property_section-Tracks :
      (n finish num : ℕ) (backing : Slice) (ext : List Bytes) (tag : Property) (input : Bytes)
      (s : Loop) (t : Bool)
      → Counts num s t
      → Tracks
          (Counts num)
          (property_section n backing ext finish tag input s)
          (scan_property n tag input t)
  unfolding property_section scan_property
  property_section-Tracks n finish num backing ext tag input (files, seen) t r =
      Tracks-first (register seen tag input) λ seen' _.
        Tracks-same (sevenzip_varuint64_decode input) λ (remaining, size) _.
          Tracks-same (ok_or (try_usize size) (error input too_large)) λ len _.
            Tracks-same (pk.take_complete len remaining) λ (rest, block) _.
              Tracks-first
                (read_property n backing ext tag input (slice_of finish remaining block) files)
                λ files' e. both (
                  read_property-num_files n backing ext tag input (slice_of finish remaining block)
                    files files' e
                  ∙ r)

  parse-Tracks :
      (orig backing : Slice) (ext : List Bytes)
      → Tracks
          (λ (files : FilesInfo) (p : ℕ × Bool). p.0 ≡ files.num_files)
          (parse_with_external orig backing ext)
          (scan_files_info_with_external orig.bytes)
  unfolding parse_with_external scan_files_info_with_external read_sections
  parse-Tracks orig backing ext = Tracks-same (Property.parse orig.bytes) λ (i, tag) _.
      Tracks-same (expect_tag orig.bytes files_info tag) λ _ _.
        Tracks-same (sevenzip_varuint64_decode i) λ (j, num) _.
          Tracks-same (ok_or (try_usize num) (error j too_large)) λ n _.
            Tracks-step _ _
              (sections-Tracks (Counts num)
                (property_section n backing ext (orig.ptr + length orig.bytes)) (scan_property n)
                (property_section-Tracks n (orig.ptr + length orig.bytes) num backing ext)
                (suc (length j)) j (no_properties num, 0) false refl)
              λ rest s uses count. both (sym count)

  -- Wherever the parser reads the block, the scanner walks over the same bytes and gives the same
  -- number of files.
  pub scan_files_info-parse_with_external :
      (orig backing : Slice) (external_data : List Bytes) (rest : Bytes) (files : FilesInfo)
      → parse_with_external orig backing external_data ≡ ok (rest, files)
      → (p : ℕ × Bool) × (scan_files_info_with_external orig.bytes ≡ ok (rest, p))
        × (p.0 ≡ files.num_files)
  scan_files_info-parse_with_external orig backing ext rest files e =
      Tracks-eq-ok (parse-Tracks orig backing ext) e
