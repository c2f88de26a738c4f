-- ===== src/Termination/Streams.antt =====
-- src/stream_info.rs: the fuel of the substream block and of the whole descriptor.
use r7z.Prelude.{
  ℕ, zero, suc, ◌+◌, ◌-◌, ◌<◌, ◌≡◌, ◌≢◌, List, [], ◌∷◌, length, out_of_fuel, arith, try_usize,
  checked_add, inl, inr,
}
use r7z.Nom.{Bytes, error, too_large}
use r7z.Nom.Consumes.{
  Consumes, leaves, fails, Returns, gives, Consumes-bind, Consumes-step, Consumes-if,
  Consumes-weaken, Consumes-ne-out_of_fuel, Returns-ok_or, Returns-of_ne, Returns-bind,
  repeat-Consumes,
}
use r7z.Packages.{Packages}
use r7z.Property.{
  Property, is_tag, end, crc, num_unpack_stream, size, pack_info, unpack_info, sub_streams_info,
}
use r7z.Parsers.{sevenzip_varuint64_decode}
use r7z.Sections.Fuel.{decode-Consumes, parse_tag-Consumes, parse_tag_cases, read_sections-Consumes}
use r7z.Slice.{Slice}
use r7z.SubstreamInfo
use r7z.SubstreamInfo.{SubstreamInfo, substream_section, check_sizes_fit}
use r7z.SubstreamInfo.Totals.{
  add_counts, add_explicit_sizes, checked_substream_total, checked_substream_size_count,
  check_substream_digest_limit,
}
use r7z.StreamInfo
use r7z.StreamInfo.{StreamInfo, no_info, folders_of, stream_section, stream_sections}
use r7z.Termination.Blocks.{
  parse_stream_digests-Consumes, expect_tag-Returns, skip_section-Consumes, pack_info-Consumes,
}
use r7z.Termination.Unpack.{unpack_info-Consumes}

add_counts-Returns :
    (input : Bytes) (total : ℕ) (counts : List ℕ) → Returns (add_counts input total counts)
unfolding add_counts
add_counts-Returns input total [] = gives
add_counts-Returns input total (c ∷ cs) =
    Returns-bind (Returns-ok_or (try_usize c) (error input too_large)) λ n.
      Returns-bind (Returns-ok_or (checked_add total n) (error input too_large))
        λ t. add_counts-Returns input t cs

add_explicit_sizes-Returns :
    (input : Bytes) (total : ℕ) (counts : List ℕ) → Returns (add_explicit_sizes input total counts)
unfolding add_explicit_sizes
add_explicit_sizes-Returns input total [] = gives
add_explicit_sizes-Returns input total (c ∷ cs) =
    Returns-bind (Returns-ok_or (try_usize c) (error input too_large)) λ n.
      Returns-bind (Returns-ok_or (checked_add total (n - 1)) (error input too_large))
        λ t. add_explicit_sizes-Returns input t cs

total-Returns : (input : Bytes) (counts : List ℕ) → Returns (checked_substream_total input counts)
unfolding checked_substream_total
total-Returns input counts = add_counts-Returns input 0 counts

size_count-Returns :
    (input : Bytes) (counts : List ℕ) → Returns (checked_substream_size_count input counts)
unfolding checked_substream_size_count
size_count-Returns input counts = add_explicit_sizes-Returns input 0 counts

limit-Returns : (input : Bytes) (total : ℕ) → Returns (check_substream_digest_limit input total)
unfolding check_substream_digest_limit
limit-Returns input total = Returns-of_ne _ (ground arith)

sizes_fit-Returns : (input : Bytes) (n : ℕ) → Returns (check_sizes_fit input n)
unfolding check_sizes_fit
sizes_fit-Returns input n = Returns-of_ne _ (ground arith)

module _ ⦃pk : Packages⦄ where
  substream_section-Consumes :
      (n : ℕ) (tag : Property) (input : Bytes) (s : SubstreamInfo)
      → Consumes (length input) (substream_section n tag input s)
  unfolding substream_section
  substream_section-Consumes n num_unpack_stream input s =
      Consumes-bind (repeat-Consumes sevenzip_varuint64_decode decode-Consumes n input)
        λ (i, counts) h. Consumes-step (total-Returns i counts) λ _. leaves h
  substream_section-Consumes n size input s =
      Consumes-step (size_count-Returns input s.num_unpack_streams_per_folder) λ k.
        Consumes-step (sizes_fit-Returns input k) λ _.
          Consumes-bind (repeat-Consumes sevenzip_varuint64_decode decode-Consumes k input)
            λ (i, sizes) h. leaves h
  substream_section-Consumes n crc input s =
      Consumes-step (total-Returns input s.num_unpack_streams_per_folder) λ k.
        Consumes-step (limit-Returns input k)
          λ _. Consumes-bind (parse_stream_digests-Consumes input k) λ (i, crcs) h. leaves h
  substream_section-Consumes n _ input s = skip_section-Consumes input s

  substream_info-Consumes :
      (input : Bytes) (n : ℕ) → Consumes (length input - 1) (SubstreamInfo.parse input n)
  unfolding SubstreamInfo.parse
  substream_info-Consumes input n = Consumes-bind (parse_tag-Consumes input) λ (i, tag) h.
      Consumes-step (expect_tag-Returns input sub_streams_info tag) λ _.
        Consumes-weaken
          (read_sections-Consumes (substream_section n) (substream_section-Consumes n) i _) h

  -- A round of the descriptor's loop leaves less than it was given.
  stream_section-Consumes :
      (start backing : Slice) (external_data : List Bytes) (tag : Property) (input after : Bytes)
      (s : StreamInfo)
      → length input ≡ suc (length after)
      → Consumes (length after) (stream_section start backing external_data tag input after s)
  unfolding stream_section
  stream_section-Consumes start backing external_data pack_info input after s h =
      Consumes-bind (pack_info-Consumes input) λ (i, pi) k. leaves (omega arith)
  stream_section-Consumes start backing external_data unpack_info input after s h =
      Consumes-bind
        (unpack_info-Consumes
          (record { ptr = start.ptr + (length start.bytes - length input); bytes = input }) backing
          external_data)
        λ (i, ui) k. leaves (omega arith)
  stream_section-Consumes start backing external_data sub_streams_info input after s h =
      Consumes-bind (substream_info-Consumes input (folders_of s.unpack))
        λ (i, si) k. leaves (omega arith)
  stream_section-Consumes start backing external_data _ input after s h =
      skip_section-Consumes after s

  stream_sections-Consumes :
      (start backing : Slice) (external_data : List Bytes) (fuel : ℕ) (input : Bytes)
      (s : StreamInfo)
      → length input < fuel
      → Consumes (length input) (stream_sections start backing external_data fuel input s)
  unfolding stream_sections
  stream_sections-Consumes start backing external_data zero input s h = absurd (omega arith)
  stream_sections-Consumes start backing external_data (suc fuel) input s h =
      elim (parse_tag_cases input) [
        | inr (e, refused) ↦ rw refused fails
        | inl (after, tag, e, len) ↦ rw e (
            Consumes-if (is_tag tag end) (leaves (omega arith)) (
              Consumes-bind
                (stream_section-Consumes start backing external_data tag input after s len)
                λ (i, t) k.
                  Consumes-weaken
                    (stream_sections-Consumes start backing external_data fuel i t (omega arith))
                    (omega arith)))
      ]

  -- On every input the parser of the descriptor returns: neither its own loop nor those of the
  -- blocks inside it run out of rounds.
  pub parse_with_external-ne-out_of_fuel :
      (start backing : Slice) (external_data : List Bytes)
      → StreamInfo.parse_with_external start backing external_data ≢ out_of_fuel
  unfolding StreamInfo.parse_with_external
  parse_with_external-ne-out_of_fuel start backing external_data = Consumes-ne-out_of_fuel (
      stream_sections-Consumes start backing external_data (suc (length start.bytes)) start.bytes
        no_info (omega arith))
