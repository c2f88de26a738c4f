-- ===== src/FilesInfo/RoundTrip/Shape.antt =====
-- src/write/header.rs: the bytes of the file block, property by property, and the files that it
-- describes.
use r7z.Prelude.{
  ℕ, suc, ◌+◌, ◌≡◌, refl, ap, ◌∙◌, Option, List, [], ◌∷◌, ◌++◌, map, length, arith, append_assoc,
}
use r7z.Nom.{Bytes}
use r7z.Parsers.{sevenzip_varuint64_encode}
use r7z.Write.Files.{
  WriteEntry, filetime, name_bytes, empty_flags, no_stream_flags, optional_flags, values_block,
  is_file, is_anti, write_files_info, write_names, write_time_property, write_u64_property,
  write_u32_property, write_empty_properties,
}
use r7z.FilesInfo.{FilesInfo, empty_stream_ordinals}
use r7z.FilesInfo.Names.Laws.{name_block}
use r7z.FilesInfo.RoundTrip.Stored.{stored_name, stored_time, name_bytes-stored_names, times-stored}
use r7z.FilesInfo.RoundTrip.Blocks.{block_bytes, optional_values, optional_bits}
use r7z.FilesInfo.RoundTrip.Payloads.{write_empty_properties-optional_flags}

module _ (entries : List WriteEntry) where
  abbrev pub ctimes : List (Option ℕ)
  ctimes = map (λ e. filetime e.meta.ctime) entries

  abbrev pub atimes : List (Option ℕ)
  atimes = map (λ e. filetime e.meta.atime) entries

  abbrev pub mtimes : List (Option ℕ)
  mtimes = map (λ e. filetime e.meta.mtime) entries

  abbrev pub starts : List (Option ℕ)
  starts = map (λ e. e.meta.start_pos) entries

  abbrev pub attrs : List (Option ℕ)
  attrs = map (λ e. e.meta.attributes) entries

  -- The files that the bytes of the block hold.
  abbrev pub held_files : FilesInfo
  held_files = record {
    num_files = length entries;
    name_data = name_bytes entries;
    ctimes = optional_values ctimes;
    atimes = optional_values atimes;
    mtimes = optional_values mtimes;
    start_positions = optional_values starts;
    attributes = optional_values attrs;
    empty_streams = optional_bits (no_stream_flags entries);
    empty_files = optional_bits (empty_flags is_file entries);
    anti_items = optional_bits (empty_flags is_anti entries);
    empty_stream_ordinals =
        empty_stream_ordinals (optional_bits (no_stream_flags entries)) (length entries);
  }

  -- The files that the entries describe: the name of each with its end, and its times.
  abbrev pub described : FilesInfo
  described = record held_files {
    name_data = name_block (map stored_name entries);
    ctimes = optional_values (map (λ e. stored_time e.meta.ctime) entries);
    atimes = optional_values (map (λ e. stored_time e.meta.atime) entries);
    mtimes = optional_values (map (λ e. stored_time e.meta.mtime) entries);
  }

  pub held_files-described : held_files ≡ described
  held_files-described =
      rw
        (
          name_bytes-stored_names entries,
          times-stored (λ e. e.meta.ctime) entries,
          times-stored (λ e. e.meta.atime) entries,
          times-stored (λ e. e.meta.mtime) entries,
        )
        refl

  -- What is written from each property on, with `rest` behind the block.
  module _ (rest : Bytes) where
    abbrev pub from_attributes : Bytes
    from_attributes = values_block 4 0x15 attrs ++ (0x00 ∷ rest)

    abbrev pub from_starts : Bytes
    from_starts = values_block 8 0x18 starts ++ from_attributes

    abbrev pub from_mtimes : Bytes
    from_mtimes = values_block 8 0x14 mtimes ++ from_starts

    abbrev pub from_atimes : Bytes
    from_atimes = values_block 8 0x13 atimes ++ from_mtimes

    abbrev pub from_ctimes : Bytes
    from_ctimes = values_block 8 0x12 ctimes ++ from_atimes

    abbrev pub from_names : Bytes
    from_names = block_bytes 0x11 (0 ∷ name_bytes entries) from_ctimes

    abbrev pub from_anti : Bytes
    from_anti = optional_flags 0x10 (empty_flags is_anti entries) ++ from_names

    abbrev pub from_empty_files : Bytes
    from_empty_files = optional_flags 0x0f (empty_flags is_file entries) ++ from_anti

    abbrev pub from_empty_streams : Bytes
    from_empty_streams = optional_flags 0x0e (no_stream_flags entries) ++ from_empty_files

    -- An appended part in front of appended parts.
    part : (a b c : Bytes) {d : Bytes} → b ++ c ≡ d → (a ++ b) ++ c ≡ a ++ d
    part a b c e = append_assoc a b c ∙ ap (λ t. a ++ t) e

    one_more : 1 + length (name_bytes entries) ≡ suc (length (name_bytes entries))
    one_more = omega arith

    -- The name block in front of appended parts.
    names_part :
        (b : Bytes) {d : Bytes}
        → b ++ rest ≡ d
        → (write_names entries ++ b) ++ rest ≡ block_bytes 0x11 (0 ∷ name_bytes entries) d
    unfolding write_names
    names_part b {d} e =
        part (write_names entries) b rest e
        ∙ ap (λ t. 0x11 ∷ t)
            (append_assoc (sevenzip_varuint64_encode (1 + length (name_bytes entries)))
              (0 ∷ name_bytes entries) d)
        ∙ ap (λ size. 0x11 ∷ (sevenzip_varuint64_encode size ++ (0 ∷ (name_bytes entries ++ d))))
            one_more

    -- The three bitmaps in front of appended parts.
    empty_part :
        (b : Bytes)
        → b ++ rest ≡ from_names
        → (write_empty_properties entries ++ b) ++ rest ≡ from_empty_streams
    empty_part b e =
        part (write_empty_properties entries) b rest e
        ∙ rw (write_empty_properties-optional_flags entries) (
            part (optional_flags 0x0e (no_stream_flags entries)) _ from_names (
              append_assoc (optional_flags 0x0f (empty_flags is_file entries))
                (optional_flags 0x10 (empty_flags is_anti entries)) from_names))

    pub files_bytes :
        write_files_info entries ++ rest
        ≡ 0x05 ∷ (sevenzip_varuint64_encode (length entries) ++ from_empty_streams)
    unfolding write_files_info write_time_property write_u64_property write_u32_property
    files_bytes =
        ap (λ t. 0x05 ∷ t)
          (part (sevenzip_varuint64_encode (length entries)) _ rest (
            empty_part _ (
              names_part _ (
                part (values_block 8 0x12 ctimes) _ rest (
                  part (values_block 8 0x13 atimes) _ rest (
                    part (values_block 8 0x14 mtimes) _ rest (
                      part (values_block 8 0x18 starts) _ rest
                        (part (values_block 4 0x15 attrs) (0x00 ∷ []) rest refl))))))))
