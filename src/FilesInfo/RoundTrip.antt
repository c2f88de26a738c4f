-- ===== src/FilesInfo/RoundTrip.antt =====
-- src/write/header.rs and src/files_info.rs: the file block that is written, read back.
pub mod Blocks
mod Payloads
mod Stored
pub mod Shape
use r7z.Prelude.{
  ℕ, zero, suc, ◌+◌, ◌<◌, ◌^◌, ◌≡◌, ◌≢◌, refl, sym, ap, ◌∙◌, Bool, true, false, Option, none, some,
  List, [], ◌∷◌, ◌++◌, map, length, All, Result, ok, ◌>>=◌, IsU64, arith, append_assoc, ltb, lt→ltb,
  word_mod,
}
use mathlib.Core.Path.{subst}
use r7z.Nom.{Bytes}
use r7z.Packages.{Packages}
use r7z.Parsers.{sevenzip_varuint64_encode}
use r7z.Parsers.RoundTrip.{decode-encode}
use r7z.Property
use r7z.Property.{Property}
use r7z.Property.Codes.{to_u8, is_tag}
use r7z.Property.Laws.{parse-to_u8}
use r7z.PackInfo.{expect_tag}
use r7z.Slice.{Slice, Within}
use r7z.Write.Files.{
  WriteEntry, filetime, entry_name, name_bytes, empty_flags, no_stream_flags, optional_flags,
  values_block, is_file, is_anti, write_files_info, write_names, write_time_property,
  write_u64_property, write_u32_property, write_empty_properties,
}
use r7z.FilesInfo.{
  FilesInfo, no_properties, read_property, empty_stream_ordinals, parse_with_external,
}
use r7z.FilesInfo.Names.Written.{IsName}
use r7z.FilesInfo.Values.RoundTrip.{Fits}
use r7z.FilesInfo.Seen.Laws.{bit_of_zero}
use r7z.FilesInfo.Runs.{Reads, run_end, Unset}
use Blocks.{
  Rest, behind, behind_block, block_bytes, optional_values, optional_bits, finish, block_run,
  values_run, flags_run,
}
use Stored.{stored_name, entry_name-stored_name}
use Shape.{
  ctimes, atimes, mtimes, starts, attrs, described, held_files, held_files-described,
  from_attributes, from_starts, from_mtimes, from_atimes, from_ctimes, from_names, from_anti,
  from_empty_files, from_empty_streams, files_bytes,
}
use Payloads.{
  length-map, filetimes_fit, write_empty_properties-optional_flags, read-ctime, read-atime,
  read-mtime, read-start_pos, read-attributes, read-name,
}

-- The properties in the order in which they are written.
abbrev value_tags : List Property
value_tags =
    Property.ctime ∷ Property.atime ∷ Property.mtime ∷ Property.start_pos ∷ Property.attributes ∷ []

abbrev file_tags : List Property
file_tags = Property.empty_stream ∷ Property.empty_file ∷ Property.anti ∷ Property.name ∷ value_tags

-- What is asked of an entry: a name without a null, and values of their widths.
pub record IsEntry (e : WriteEntry) : Type 0 where
  pub named : IsName (stored_name e)
  pub start_fits : Fits 8 e.meta.start_pos
  pub attributes_fit : Fits 4 e.meta.attributes

names_hold : (es : List WriteEntry) → All IsEntry es → All IsName (map entry_name es)
names_hold [] h = tt
names_hold (e ∷ es) (p, h) =
    (subst IsName (sym (entry_name-stored_name e)) p.named, names_hold es h)

starts_hold :
    (es : List WriteEntry) → All IsEntry es → All (Fits 8) (map (λ e. e.meta.start_pos) es)
starts_hold [] h = tt
starts_hold (e ∷ es) (p, h) = (p.start_fits, starts_hold es h)

attributes_hold :
    (es : List WriteEntry) → All IsEntry es → All (Fits 4) (map (λ e. e.meta.attributes) es)
attributes_hold [] h = tt
attributes_hold (e ∷ es) (p, h) = (p.attributes_fit, attributes_hold es h)

-- The files behind the bitmaps and the names, and behind all properties.
abbrev named_files : List WriteEntry → FilesInfo
named_files entries = record (no_properties (length entries)) {
  name_data = name_bytes entries;
  empty_streams = optional_bits (no_stream_flags entries);
  empty_files = optional_bits (empty_flags is_file entries);
  anti_items = optional_bits (empty_flags is_anti entries);
}

module _ ⦃pk : Packages⦄ (backing orig : Slice) (inside : Within backing orig)
    (external_data : List Bytes) (entries : List WriteEntry) (rest : Bytes)
    (good : All IsEntry entries) where
  abbrev n : ℕ
  n = length entries

  abbrev Run : Bytes → FilesInfo → List Property → Type 0
  Run input files tags =
      Reads n backing external_data (finish orig) input files tags rest
        (record (held_files entries) { empty_stream_ordinals = [] })

  -- The times, positions and attributes, from the names on.
  values_part :
      Rest orig.bytes (from_ctimes entries rest)
      → Run (from_ctimes entries rest) (named_files entries) value_tags
  unfolding to_u8
  values_part r =
      let g5 = record (named_files entries) { ctimes = optional_values (ctimes entries) } in
      let g6 = record g5 { atimes = optional_values (atimes entries) } in
      let g7 = record g6 { mtimes = optional_values (mtimes entries) } in
      let g8 = record g7 { start_positions = optional_values (starts entries) } in
      let r6 =
        behind orig.bytes (values_block 8 0x12 (ctimes entries)) (from_atimes entries rest) r in
      let r7 =
        behind orig.bytes (values_block 8 0x13 (atimes entries)) (from_mtimes entries rest) r6 in
      let r8 =
        behind orig.bytes (values_block 8 0x14 (mtimes entries)) (from_starts entries rest) r7 in
      let r9 =
        behind orig.bytes (values_block 8 0x18 (starts entries)) (from_attributes entries rest)
          r8 in
      values_run backing orig inside external_data n Property.ctime refl (ground arith) 8
        (ctimes entries) (λ v. record (named_files entries) { ctimes = v }) refl
        (λ inp ptr.
          read-ctime backing external_data n (ctimes entries) (named_files entries) inp ptr
            (length-map _ entries) (filetimes_fit _ entries))
        r
        (values_run backing orig inside external_data n Property.atime refl (ground arith) 8
          (atimes entries) (λ v. record g5 { atimes = v }) refl
          (λ inp ptr.
            read-atime backing external_data n (atimes entries) g5 inp ptr (length-map _ entries)
              (filetimes_fit _ entries))
          r6
          (values_run backing orig inside external_data n Property.mtime refl (ground arith) 8
            (mtimes entries) (λ v. record g6 { mtimes = v }) refl
            (λ inp ptr.
              read-mtime backing external_data n (mtimes entries) g6 inp ptr (length-map _ entries)
                (filetimes_fit _ entries))
            r7
            (values_run backing orig inside external_data n Property.start_pos refl (ground arith) 8
              (starts entries) (λ v. record g7 { start_positions = v }) refl
              (λ inp ptr.
                read-start_pos backing external_data n (starts entries) g7 inp ptr
                  (length-map _ entries) (starts_hold entries good))
              r8
              (values_run backing orig inside external_data n Property.attributes refl tt 4
                (attrs entries) (λ v. record g8 { attributes = v }) refl
                (λ inp ptr.
                  read-attributes backing external_data n (attrs entries) g8 inp ptr
                    (length-map _ entries) (attributes_hold entries good))
                r9 (run_end n backing external_data (finish orig) rest _)))))

  -- All properties.
  properties_part :
      Rest orig.bytes (from_empty_streams entries rest)
      → Run (from_empty_streams entries rest) (no_properties n) file_tags
  unfolding to_u8 read_property
  properties_part r =
      let g1 = record (no_properties n) {
        empty_streams = optional_bits (no_stream_flags entries);
      } in
      let g2 = record g1 { empty_files = optional_bits (empty_flags is_file entries) } in
      let g3 = record g2 { anti_items = optional_bits (empty_flags is_anti entries) } in
      let r2 =
        behind orig.bytes (optional_flags 0x0e (no_stream_flags entries))
          (from_empty_files entries rest) r in
      let r3 =
        behind orig.bytes (optional_flags 0x0f (empty_flags is_file entries))
          (from_anti entries rest) r2 in
      let r4 =
        behind orig.bytes (optional_flags 0x10 (empty_flags is_anti entries))
          (from_names entries rest) r3 in
      let names = 0 ∷ name_bytes entries in
      let r5 =
        behind orig.bytes names (from_ctimes entries rest)
          (behind_block orig.bytes 0x11 names (from_ctimes entries rest) r4) in
      flags_run backing orig inside external_data n Property.empty_stream refl (ground arith)
        (no_stream_flags entries) (λ b. record (no_properties n) { empty_streams = b }) refl
        (λ inp block. refl) r
        (flags_run backing orig inside external_data n Property.empty_file refl (ground arith)
          (empty_flags is_file entries) (λ b. record g1 { empty_files = b }) refl
          (λ inp block. refl) r2
          (flags_run backing orig inside external_data n Property.anti refl (ground arith)
            (empty_flags is_anti entries) (λ b. record g2 { anti_items = b }) refl
            (λ inp block. refl) r3
            (block_run backing orig inside external_data n Property.name refl (ground arith) names
              (λ inp ptr.
                read-name backing external_data n entries g3 inp ptr refl (names_hold entries good))
              r4 (values_part r5))))

no_bit_set : (tags : List Property) → Unset 0 tags
no_bit_set [] = tt
no_bit_set (t ∷ tags) = (bit_of_zero (to_u8 t), no_bit_set tags)

module _ ⦃pk : Packages⦄ where
  -- For entries whose number fits 64 bits, whose stored names hold no null and whose positions and
  -- attributes are of their widths, what `write_files_info` writes, at its address inside the buffer,
  -- reads back as the files that the entries describe: their number, names (the raw name, or else the
  -- UTF-16 code units of the name), times, positions and attributes, the bitmaps of the empty streams,
  -- empty files and anti-items, and the ordinals of the empty streams. What follows the block is left.
  pub parse_with_external-write_files_info :
      (backing orig : Slice) (external_data : List Bytes) (entries : List WriteEntry) (rest : Bytes)
      → Within backing orig
      → orig.bytes ≡ write_files_info entries ++ rest
      → All IsEntry entries
      → IsU64 (length entries)
      → parse_with_external orig backing external_data ≡ ok (rest, described entries)
  unfolding parse_with_external expect_tag is_tag to_u8
  parse_with_external-write_files_info backing orig external_data entries rest inside written good
        count =
      let body = from_empty_streams entries rest in
      let shape = written ∙ files_bytes entries rest in
      let r =
        behind orig.bytes (0x05 ∷ sevenzip_varuint64_encode (length entries)) body
          (record { front = []; splits = shape }) in
      let start =
        ap Property.parse shape
        ∙ parse-to_u8 Property.files_info (sevenzip_varuint64_encode (length entries) ++ body) in
      let (seen, e) =
        (properties_part backing orig inside external_data entries rest good r).runs 0
          (no_bit_set file_tags) in
      rw
        (
          start,
          decode-encode (length entries) body count,
          lt→ltb (length entries) word_mod count,
          e,
        )
        (ap (λ files. ok (rest, files)) (held_files-described entries))
