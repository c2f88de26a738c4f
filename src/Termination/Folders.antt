-- ===== src/Termination/Folders.antt =====
-- src/coder_info.rs, src/folder.rs: the fuel of coders, folders and their scans.
use r7z.Prelude.{ℕ, zero, suc, length, ◌==◌, arith, bit_and, try_usize}
use r7z.Nom.{Bytes, error, too_large}
use r7z.Nom.Consumes.{
  Consumes, leaves, Returns, Consumes-bind, Consumes-step, Consumes-if, Consumes-weaken,
  Returns-ok_or, Returns-of_ne, skip_repeat-Consumes,
}
use r7z.Packages.{Packages}
use r7z.Sections.Fuel.{decode-Consumes, take_complete-Consumes, le_u8-Consumes}
use r7z.CoderInfo.{parse_arity, parse_properties, parse_ref, codec_id_size}
use r7z.Folder.{parse_bind_pair, parse_packed_index, skip_packed_indices, scan_coders, scan_folder}
use r7z.Folder.Counts.{
  StreamCounts, no_streams, checked_coder_count, add_coder, layout, checked_stream_index,
}

parse_arity-Consumes :
    (flags : ℕ) (input : Bytes) → Consumes (length input) (parse_arity flags input)
unfolding parse_arity
parse_arity-Consumes flags input = Consumes-if (bit_and flags 0x10 == 0) (leaves (omega arith)) (
    Consumes-bind (decode-Consumes input)
      λ (i, a) h. Consumes-bind (decode-Consumes i) λ (j, b) k. leaves (omega arith))

checked_coder_count-Returns :
    (input : Bytes) (count : ℕ) → Returns (checked_coder_count input count)
unfolding checked_coder_count
checked_coder_count-Returns input count = Returns-of_ne _ (ground arith)

add_coder-Returns :
    (counts : StreamCounts) (input : Bytes) (a b : ℕ) → Returns (add_coder counts input a b)
unfolding add_coder
add_coder-Returns counts input a b = Returns-of_ne _ (ground arith)

layout-Returns : (counts : StreamCounts) (input : Bytes) → Returns (layout counts input)
unfolding layout
layout-Returns counts input = Returns-of_ne _ (ground arith)

checked_stream_index-Returns :
    (input : Bytes) (index total : ℕ) → Returns (checked_stream_index input index total)
unfolding checked_stream_index
checked_stream_index-Returns input index total = Returns-of_ne _ (ground arith)

parse_bind_pair-Consumes :
    (counts : StreamCounts) (input : Bytes) → Consumes (length input) (parse_bind_pair counts input)
unfolding parse_bind_pair
parse_bind_pair-Consumes counts input = Consumes-bind (decode-Consumes input) λ (i, a) h.
    Consumes-step (checked_stream_index-Returns i a counts.inputs) λ _.
      Consumes-bind (decode-Consumes i) λ (j, b) k.
        Consumes-step (checked_stream_index-Returns j b counts.outputs) λ _. leaves (omega arith)

parse_packed_index-Consumes :
    (counts : StreamCounts) (input : Bytes)
    → Consumes (length input) (parse_packed_index counts input)
unfolding parse_packed_index
parse_packed_index-Consumes counts input = Consumes-bind (decode-Consumes input) λ (i, a) h.
    Consumes-step (checked_stream_index-Returns i a counts.inputs) λ _. leaves (omega arith)

skip_packed_indices-Consumes :
    (counts : StreamCounts) (n : ℕ) (input : Bytes)
    → Consumes (length input) (skip_packed_indices counts n input)
unfolding skip_packed_indices
skip_packed_indices-Consumes counts n input =
    Consumes-if (n == 1) (leaves (omega arith)) (
      skip_repeat-Consumes (parse_packed_index counts) (parse_packed_index-Consumes counts) n input)

module _ ⦃pk : Packages⦄ where
  parse_properties-Consumes :
      (flags : ℕ) (input : Bytes) → Consumes (length input) (parse_properties flags input)
  unfolding parse_properties
  parse_properties-Consumes flags input =
      Consumes-if (bit_and flags 0x20 == 0) (leaves (omega arith)) (
        Consumes-bind (decode-Consumes input) λ (i, n) h.
          Consumes-step (Returns-ok_or (try_usize n) (error i too_large)) λ size.
            Consumes-bind (take_complete-Consumes size i) λ (j, props) k. leaves (omega arith))

  parse_ref-Consumes : (input : Bytes) → Consumes (length input) (parse_ref input)
  unfolding parse_ref
  parse_ref-Consumes input = Consumes-bind (le_u8-Consumes input) λ (i, flags) h.
      Consumes-bind (take_complete-Consumes (codec_id_size flags) i) λ (j, id) k.
        Consumes-bind (parse_arity-Consumes flags j) λ (l, arity) m.
          Consumes-bind (parse_properties-Consumes flags l) λ (o, props) p. leaves (omega arith)

  scan_coders-Consumes :
      (n : ℕ) (counts : StreamCounts) (input : Bytes)
      → Consumes (length input) (scan_coders n counts input)
  unfolding scan_coders
  scan_coders-Consumes zero counts input = leaves (omega arith)
  scan_coders-Consumes (suc n) counts input = Consumes-bind (parse_ref-Consumes input) λ (i, c) h.
      Consumes-step (add_coder-Returns counts i c.num_in_streams c.num_out_streams)
        λ next. Consumes-weaken (scan_coders-Consumes n next i) h

  -- A scan of a folder returns, and leaves no more than its input.
  pub scan_folder-Consumes : (input : Bytes) → Consumes (length input) (scan_folder input)
  unfolding scan_folder
  scan_folder-Consumes input = Consumes-bind (decode-Consumes input) λ (i, n) h.
      Consumes-step (checked_coder_count-Returns i n) λ count.
        Consumes-bind (scan_coders-Consumes count no_streams i) λ (j, counts) k.
          Consumes-step (layout-Returns counts j) λ (pairs, packed).
            Consumes-bind
              (skip_repeat-Consumes (parse_bind_pair counts) (parse_bind_pair-Consumes counts) pairs
                j)
              λ (l, _) m. Consumes-bind (skip_packed_indices-Consumes counts packed l) λ (o, _) p.
                Consumes-step (Returns-ok_or (try_usize counts.outputs) (error o too_large))
                  λ total. leaves (omega arith)
