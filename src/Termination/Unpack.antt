-- ===== src/Termination/Unpack.antt =====
-- src/pack_info.rs: the fuel of the unpack block.
use r7z.Prelude.{
  ℕ, zero, suc, ◌-◌, ◌≤◌, ◌≡◌, List, [], ◌∷◌, length, length-drop, ok, ◌==◌, arith, try_usize,
  checked_add, Option, get_elem?,
}
use r7z.Nom.{Bytes, error, failure, too_large, eof}
use r7z.Nom.Consumes.{
  Consumes, leaves, fails, Returns, gives, Consumes-bind, Consumes-step, Consumes-step_eq,
  Consumes-if, Consumes-Returns, Returns-ok_or, Returns-of_ne, Returns-bind, Returns-map_err,
  repeat-Consumes,
}
use r7z.Packages.{Packages}
use r7z.Property.{Property, crc, coders_unpack_size, unpack_info, folder}
use r7z.Parsers.{sevenzip_varuint64_decode}
use r7z.Sections.Fuel.{decode-Consumes, le_u8-Consumes, parse_tag-Consumes, read_sections-Consumes}
use r7z.Slice.{Slice, shared_view, bytes_subslice}
use r7z.UnpackInfo
use r7z.UnpackInfo.{error_code, scan_blocks, scan_folder_blocks, unpack_section, try_u32}
use r7z.UnpackInfo.Source.{
  FolderLocation, FolderSource, parse_location, parse_folder_declaration, resolve, source_bytes,
  remaining_header, backing_of, source_slice,
}
use r7z.Termination.Folders.{scan_folder-Consumes}
use r7z.Termination.Blocks.{parse_digests-Consumes, expect_tag-Returns, skip_section-Consumes}

resolve-Consumes :
    (input : Bytes) (l : FolderLocation) (external_data : List Bytes)
    → Consumes (length input) (resolve input l external_data)
unfolding resolve
resolve-Consumes input FolderLocation.inline external_data = leaves (omega arith)
resolve-Consumes input (FolderLocation.external index) external_data =
    Consumes-step (Returns-ok_or (get_elem? external_data index) (failure input eof))
      λ found. leaves (omega arith)

remaining_header-Returns :
    (source : FolderSource) (input : Bytes) (consumed : ℕ)
    → Returns (remaining_header source input consumed)
unfolding remaining_header
remaining_header-Returns (FolderSource.inline _) input consumed = Returns-of_ne _ (ground arith)
remaining_header-Returns (FolderSource.external _) input consumed = gives

pub remaining_header-shorter :
    (source : FolderSource) (input rest : Bytes) (consumed : ℕ)
    → remaining_header source input consumed ≡ ok rest
    → length rest ≤ length input
unfolding remaining_header
remaining_header-shorter (FolderSource.inline _) input rest consumed e =
    ground (arith, length-drop consumed input)
remaining_header-shorter (FolderSource.external _) input rest consumed e = ground arith

shared_view-Returns :
    (backing : Slice) (ptr : ℕ) (bytes input : Bytes)
    → Returns (shared_view backing ptr bytes input)
unfolding shared_view
shared_view-Returns backing ptr [] input = gives
shared_view-Returns backing ptr (b ∷ bs) input = Returns-of_ne _ (ground arith)

pub bytes_subslice-Returns :
    (backing slice : Slice) (input : Bytes) → Returns (bytes_subslice backing slice input)
unfolding bytes_subslice
bytes_subslice-Returns backing slice input = shared_view-Returns backing slice.ptr slice.bytes input

module _ ⦃pk : Packages⦄ where
  parse_location-Consumes :
      (flag : ℕ) (input : Bytes) → Consumes (length input) (parse_location flag input)
  unfolding parse_location
  parse_location-Consumes flag input = Consumes-if (flag == 0) (leaves (omega arith)) (
      Consumes-if (flag == 1)
        (Consumes-bind (decode-Consumes input) λ (i, index) h.
          Consumes-step (Returns-ok_or (try_usize index) (failure i too_large)) λ n. leaves h)
        fails)

  pub parse_folder_declaration-Consumes :
      (input : Bytes) → Consumes (length input - 1) (parse_folder_declaration input)
  unfolding parse_folder_declaration
  parse_folder_declaration-Consumes input = Consumes-bind (parse_tag-Consumes input) λ (i, tag) h.
      Consumes-step (expect_tag-Returns input unpack_info tag) λ _.
        Consumes-bind (parse_tag-Consumes i) λ (j, marker) k.
          Consumes-step (expect_tag-Returns j folder marker) λ _.
            Consumes-bind (decode-Consumes j) λ (l, count) m.
              Consumes-bind (le_u8-Consumes l) λ (o, flag) p.
                Consumes-bind (parse_location-Consumes flag o)
                  λ (q, location) r. leaves (omega arith)

  scan_blocks-Returns :
      (all : Bytes) (count total : ℕ) (folders : Bytes)
      → Returns (scan_blocks all count total folders)
  unfolding scan_blocks
  scan_blocks-Returns all zero total folders =
      Returns-bind (Returns-ok_or (try_u32 (length all - length folders)) too_large) λ last. gives
  scan_blocks-Returns all (suc count) total folders =
      Returns-bind (Returns-ok_or (try_u32 (length all - length folders)) too_large) λ offset.
        Returns-bind (Returns-map_err error_code (Consumes-Returns (scan_folder-Consumes folders)))
          λ (rest, outs).
            Returns-bind (Returns-ok_or (checked_add total outs) too_large)
              λ sum. Returns-bind (scan_blocks-Returns all count sum rest) λ (r, t, os). gives

  scan_folder_blocks-Returns : (all : Bytes) (count : ℕ) → Returns (scan_folder_blocks all count)
  unfolding scan_folder_blocks
  scan_folder_blocks-Returns all count =
      Returns-bind (scan_blocks-Returns all count 0 all) λ (rest, total, offsets). gives

  unpack_section-Consumes :
      (num total : ℕ) (tag : Property) (input : Bytes) (s : List ℕ × List (Option ℕ))
      → Consumes (length input) (unpack_section num total tag input s)
  unfolding unpack_section
  unpack_section-Consumes num total coders_unpack_size input (sizes, ds) =
      Consumes-bind (repeat-Consumes sevenzip_varuint64_decode decode-Consumes total input)
        λ (i, more) h. leaves h
  unpack_section-Consumes num total crc input (sizes, ds) =
      Consumes-step (Returns-ok_or (try_usize num) (error input too_large))
        λ n. Consumes-bind (parse_digests-Consumes input n) λ (i, cs) h. leaves h
  unpack_section-Consumes num total _ input s = skip_section-Consumes input s

  pub unpack_info-Consumes :
      (start backing : Slice) (external_data : List Bytes)
      → Consumes
          (length start.bytes - 1)
          (UnpackInfo.parse_with_external start backing external_data)
  unfolding UnpackInfo.parse_with_external
  unpack_info-Consumes start backing external_data =
      Consumes-bind (parse_folder_declaration-Consumes start.bytes) λ (i, (num, location)) h.
        Consumes-bind (resolve-Consumes i location external_data) λ (j, source) k.
          Consumes-step
            (Returns-map_err (failure j) (scan_folder_blocks-Returns (source_bytes source) num))
            λ (consumed, total, offsets).
              Consumes-step
                (bytes_subslice-Returns (backing_of source backing)
                  (source_slice source start j consumed) j)
                λ shared. Consumes-step_eq (remaining_header-Returns source j consumed) λ l e.
                  Consumes-bind
                    (read_sections-Consumes (unpack_section num total)
                      (unpack_section-Consumes num total) l ([], []))
                    λ (o, (sizes, ds)) m.
                      leaves (omega (arith, remaining_header-shorter source j l consumed e))
