-- ===== src/Termination/Files.antt =====
-- src/files_info.rs: the fuel of the file block, parsed and scanned.
use r7z.Prelude.{
  ℕ, zero, suc, ◌+◌, ◌≡◌, ◌≢◌, ◌≤◌, ◌⊎◌, ok, err, Bool, false, Option, List, [], ◌∷◌, length,
  out_of_fuel, if◌then◌else◌, arith, try_usize, ltb, bit_and, ◌==◌, drop, get_elem?, div_ceil_8,
  none, some,
}
use r7z.Nom.{Bytes, ParseError, error, eof, too_large}
use r7z.Nom.Consumes.{
  Consumes, leaves, Returns, gives, refuses, Consumes-bind, Consumes-step, Consumes-cases,
  Consumes-ne-out_of_fuel, Returns-ok_or, Returns-bind, Returns-if, Returns-map_err,
  Consumes-Returns,
}
use r7z.Packages.{Packages}
use r7z.Property.{Property, files_info}
use r7z.Slice.{Slice}
use r7z.Sections.Fuel.{
  decode-Consumes, take_complete-Consumes, parse_tag-Consumes, read_sections-Consumes,
}
use r7z.Termination.Blocks.{expect_tag-Returns}
use r7z.Termination.Unpack.{bytes_subslice-Returns}
use r7z.Digests.{is_defined}
use r7z.FilesInfo.{
  Loop, FilesInfo, read_property, property_section, parse_with_external, no_properties, slice_of,
  defined_u64, defined_u32,
}
use r7z.FilesInfo.Names.{validate_name_data, names_complete, all_terminated, as_chunks}
use r7z.FilesInfo.Values.{
  property_data, external_property_data, split_first, split_at_checked, parse_defined, values_loop,
  all_read, parse_defined_u64_values, parse_defined_u32_values, expect_end,
}
use r7z.FilesInfo.Seen.{register, register_mask, property_mask}
use r7z.FilesInfo.Scan.{scan_property, scan_files_info_with_external}

register_mask-Returns :
    (seen : ℕ) (input : Bytes) (mask : Option ℕ) → Returns (register_mask seen input mask)
register_mask-Returns seen input none = gives
register_mask-Returns seen input (some mask) = Returns-if (bit_and seen mask == 0) gives refuses

register-Returns : (seen : ℕ) (tag : Property) (input : Bytes) → Returns (register seen tag input)
unfolding register
register-Returns seen tag input = register_mask-Returns seen input (property_mask tag)

expect_end-Returns : (error_input rest : Bytes) → Returns (expect_end error_input rest)
expect_end-Returns error_input [] = gives
expect_end-Returns error_input (b ∷ bs) = refuses

external-Returns :
    (input index_bytes : Bytes) (ext : List Bytes)
    → Returns (external_property_data input index_bytes ext)
unfolding external_property_data
external-Returns input index_bytes ext =
    Returns-bind (Returns-map_err _ (Consumes-Returns (decode-Consumes index_bytes)))
      λ (remaining, index). Returns-bind (expect_end-Returns input remaining) λ _.
        Returns-bind (Returns-ok_or (try_usize index) (error input too_large))
          λ i. Returns-ok_or (get_elem? ext i) (error input eof)

property_data-Returns :
    (input : Bytes) (payload backing : Slice) (ext : List Bytes)
    → Returns (property_data input payload backing ext)
unfolding property_data
property_data-Returns input payload backing ext =
    Returns-bind (Returns-ok_or (split_first payload) (error input eof)) λ (external, part).
      Returns-if (external == 0) (bytes_subslice-Returns backing part input)
        (external-Returns input part.bytes ext)

parse_defined-Returns :
    (input : Bytes) (block : Slice) (n : ℕ) (backing : Slice) (ext : List Bytes)
    → Returns (parse_defined input block n backing ext)
unfolding parse_defined
parse_defined-Returns input block n backing ext =
    Returns-bind (Returns-ok_or (split_first block) (error input eof)) λ (d, payload).
      Returns-bind
        (Returns-ok_or (split_at_checked (if d == 0 then div_ceil_8 n else 0) payload)
          (error input eof))
        λ (bitmap, rest). Returns-bind (property_data-Returns input rest backing ext) λ v. gives

values_loop-Returns :
    (width : ℕ) (input : Bytes) (d : ℕ) (bitmap : Bytes) (index num : ℕ) (rest : Bytes)
    → Returns (values_loop width input d bitmap index num rest)
unfolding values_loop
values_loop-Returns width input d bitmap index zero rest = gives
values_loop-Returns width input d bitmap index (suc num) rest =
    Returns-if (is_defined d bitmap index)
      (Returns-if (ltb (length rest) width) refuses (
        Returns-bind (values_loop-Returns width input d bitmap (index + 1) num (drop width rest))
          λ r. gives))
      (Returns-bind (values_loop-Returns width input d bitmap (index + 1) num rest) λ r. gives)

all_read-Returns : (input : Bytes) (r : Bytes × List (Option ℕ)) → Returns (all_read input r)
all_read-Returns input ([], values) = gives
all_read-Returns input (b ∷ bs, values) = refuses

module _ (n : ℕ) (backing : Slice) (ext : List Bytes) (input : Bytes) (block : Slice) where
  defined_u64-Returns : Returns (defined_u64 n backing ext input block)
  unfolding defined_u64 parse_defined_u64_values
  defined_u64-Returns = Returns-bind (parse_defined-Returns input block n backing ext) λ p.
      Returns-bind (values_loop-Returns 8 input p.all_defined p.bitmap 0 n p.values)
        λ r. all_read-Returns input r

  defined_u32-Returns : Returns (defined_u32 n backing ext input block)
  unfolding defined_u32 parse_defined_u32_values
  defined_u32-Returns = Returns-bind (parse_defined-Returns input block n backing ext) λ p.
      Returns-bind (values_loop-Returns 4 input p.all_defined p.bitmap 0 n p.values)
        λ r. all_read-Returns input r

  validate-Returns : (name_data : Bytes) → Returns (validate_name_data name_data n input)
  unfolding validate_name_data
  validate-Returns name_data =
      Returns-if (names_complete (all_terminated n (as_chunks name_data).0) (as_chunks name_data).1)
        gives refuses

  read_property-Returns :
      (tag : Property) (files : FilesInfo)
      → Returns (read_property n backing ext tag input block files)
  unfolding read_property
  read_property-Returns Property.name files =
      Returns-bind (property_data-Returns input block backing ext)
        λ v. Returns-bind (validate-Returns v) λ _. gives
  read_property-Returns Property.ctime files = Returns-bind defined_u64-Returns λ v. gives
  read_property-Returns Property.atime files = Returns-bind defined_u64-Returns λ v. gives
  read_property-Returns Property.mtime files = Returns-bind defined_u64-Returns λ v. gives
  read_property-Returns Property.start_pos files = Returns-bind defined_u64-Returns λ v. gives
  read_property-Returns Property.attributes files = Returns-bind defined_u32-Returns λ v. gives
  read_property-Returns Property.empty_stream files =
      Returns-bind (bytes_subslice-Returns backing block input) λ b. gives
  read_property-Returns Property.empty_file files =
      Returns-bind (bytes_subslice-Returns backing block input) λ b. gives
  read_property-Returns Property.anti files =
      Returns-bind (bytes_subslice-Returns backing block input) λ b. gives
  read_property-Returns _ files = gives

module _ ⦃pk : Packages⦄ where
  property_section-Consumes :
      (n finish : ℕ) (backing : Slice) (ext : List Bytes) (tag : Property) (input : Bytes)
      (s : Loop)
      → Consumes (length input) (property_section n backing ext finish tag input s)
  unfolding property_section
  property_section-Consumes n finish backing ext tag input (files, seen) =
      Consumes-step (register-Returns seen tag input) λ seen'.
        Consumes-bind (decode-Consumes input) λ (remaining, size) h.
          Consumes-step (Returns-ok_or (try_usize size) (error input too_large)) λ len.
            Consumes-bind (take_complete-Consumes len remaining) λ (rest, block) k.
              Consumes-step
                (read_property-Returns n backing ext input (slice_of finish remaining block) tag
                  files)
                λ files'. leaves (omega arith)

  scan_property-Consumes :
      (n : ℕ) (tag : Property) (input : Bytes) (t : Bool)
      → Consumes (length input) (scan_property n tag input t)
  unfolding scan_property
  scan_property-Consumes n tag input t =
      Consumes-bind (decode-Consumes input) λ (remaining, size) h.
        Consumes-step (Returns-ok_or (try_usize size) (error input too_large)) λ len.
          Consumes-bind (take_complete-Consumes len remaining)
            λ (rest, block) k. leaves (omega arith)

  scan_files_info-Consumes :
      (orig : Bytes) → Consumes (length orig) (scan_files_info_with_external orig)
  unfolding scan_files_info_with_external
  scan_files_info-Consumes orig = Consumes-bind (parse_tag-Consumes orig) λ (i, tag) h.
      Consumes-step (expect_tag-Returns orig files_info tag) λ _.
        Consumes-bind (decode-Consumes i) λ (j, num) k.
          Consumes-step (Returns-ok_or (try_usize num) (error j too_large)) λ n.
            Consumes-bind
              (read_sections-Consumes (scan_property n) (scan_property-Consumes n) j false)
              λ (l, uses) m. leaves (omega arith)

  -- The scanner of the file block returns on every input.
  pub scan_files_info-ne-out_of_fuel :
      (orig : Bytes) → scan_files_info_with_external orig ≢ out_of_fuel
  scan_files_info-ne-out_of_fuel orig = Consumes-ne-out_of_fuel (scan_files_info-Consumes orig)

  parse-Consumes :
      (orig backing : Slice) (ext : List Bytes)
      → Consumes (length orig.bytes) (parse_with_external orig backing ext)
  unfolding parse_with_external
  parse-Consumes orig backing ext = Consumes-bind (parse_tag-Consumes orig.bytes) λ (i, tag) h.
      Consumes-step (expect_tag-Returns orig.bytes files_info tag) λ _.
        Consumes-bind (decode-Consumes i) λ (j, num) k.
          Consumes-step (Returns-ok_or (try_usize num) (error j too_large)) λ n.
            Consumes-bind
              (read_sections-Consumes
                (property_section n backing ext (orig.ptr + length orig.bytes))
                (property_section-Consumes n (orig.ptr + length orig.bytes) backing ext) j
                (no_properties num, 0))
              λ (l, s) m. leaves (omega arith)

  -- On every input, the parser of the file block gives files and leaves no more bytes than it was
  -- given, or gives an error: no loop of it runs out of rounds.
  pub parse_files_info-ends :
      (orig backing : Slice) (external_data : List Bytes)
      → ((p : Bytes × FilesInfo) × (parse_with_external orig backing external_data ≡ ok p)
          × (length p.0 ≤ length orig.bytes))
        ⊎ ((e : ParseError) × (parse_with_external orig backing external_data ≡ err e))
  parse_files_info-ends orig backing ext = Consumes-cases (parse-Consumes orig backing ext)
