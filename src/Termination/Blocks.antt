-- ===== src/Termination/Blocks.antt =====
-- src/pack_info.rs: the fuel of the digest tables and of the pack block.
use r7z.Prelude.{
  ℕ, zero, suc, ◌+◌, ◌-◌, List, [], length, ok, ◌>>=◌, ◌==◌, ltb, arith, try_usize, checked_mul,
  div_ceil_8, Option,
}
use r7z.Nom.{Bytes, error, too_large}
use r7z.Nom.Consumes.{
  Consumes, leaves, fails, Returns, Consumes-bind, Consumes-step, Consumes-if, Consumes-weaken,
  Returns-ok_or, Returns-of_ne, repeat-Consumes,
}
use r7z.Packages.{Packages}
use r7z.Property.{Property, crc, size, pack_info}
use r7z.Parsers.{sevenzip_varuint64_decode}
use r7z.Sections.{skip_sized}
use r7z.Sections.Fuel.{
  decode-Consumes, take_complete-Consumes, le_u8-Consumes, le_u32-Consumes, parse_tag-Consumes,
  skip_sized-Consumes, read_sections-Consumes,
}
use r7z.Digests.{
  is_defined, parse_bitmap, read_crcs, parse_digests, parse_stream_digests, num_defined,
}
use r7z.PackInfo
use r7z.PackInfo.{expect_tag, parse_pack_start, pack_section}

module _ ⦃pk : Packages⦄ where
  parse_bitmap-Consumes :
      (all_defined num : ℕ) (input : Bytes)
      → Consumes (length input) (parse_bitmap all_defined num input)
  unfolding parse_bitmap
  parse_bitmap-Consumes all_defined num input =
      Consumes-if (all_defined == 0) (take_complete-Consumes (div_ceil_8 num) input)
        (leaves (omega arith))

  read_crcs-Consumes :
      (all_defined : ℕ) (bitmap : Bytes) (from num : ℕ) (input : Bytes)
      → Consumes (length input) (read_crcs all_defined bitmap from num input)
  unfolding read_crcs
  read_crcs-Consumes all_defined bitmap from zero input = leaves (omega arith)
  read_crcs-Consumes all_defined bitmap from (suc num) input =
      Consumes-if (is_defined all_defined bitmap from)
        (Consumes-bind (le_u32-Consumes input) λ (i, c) h.
          Consumes-bind (read_crcs-Consumes all_defined bitmap (from + 1) num i)
            λ (j, cs) k. leaves (omega arith))
        (Consumes-bind (read_crcs-Consumes all_defined bitmap (from + 1) num input)
          λ (j, cs) k. leaves (omega arith))

  pub parse_digests-Consumes :
      (input : Bytes) (num : ℕ) → Consumes (length input) (parse_digests input num)
  unfolding parse_digests
  parse_digests-Consumes input num = Consumes-bind (le_u8-Consumes input) λ (i, d) h.
      Consumes-bind (parse_bitmap-Consumes d num i)
        λ (j, bm) k. Consumes-weaken (read_crcs-Consumes d bm 0 num j) (omega arith)

  pub parse_stream_digests-Consumes :
      (input : Bytes) (num : ℕ) → Consumes (length input) (parse_stream_digests input num)
  unfolding parse_stream_digests
  parse_stream_digests-Consumes input num = Consumes-bind (le_u8-Consumes input) λ (i, d) h.
      Consumes-bind (parse_bitmap-Consumes d num i) λ (j, bm) k.
        Consumes-step (Returns-ok_or (checked_mul (num_defined d bm num) 4) (error j too_large))
          λ n.
            Consumes-if (ltb (length j) n) fails
              (Consumes-weaken (read_crcs-Consumes d bm 0 num j) (omega arith))

pub expect_tag-Returns : (at : Bytes) (wanted tag : Property) → Returns (expect_tag at wanted tag)
unfolding expect_tag
expect_tag-Returns at wanted tag = Returns-of_ne _ (ground arith)

module _ ⦃pk : Packages⦄ where
  parse_pack_start-Consumes : (input : Bytes) → Consumes (length input - 1) (parse_pack_start input)
  unfolding parse_pack_start
  parse_pack_start-Consumes input = Consumes-bind (parse_tag-Consumes input) λ (i, tag) h.
      Consumes-step (expect_tag-Returns input pack_info tag) λ _.
        Consumes-bind (decode-Consumes i) λ (j, pos) k.
          Consumes-bind (decode-Consumes j) λ (l, num) m.
            Consumes-bind (parse_tag-Consumes l) λ (o, marker) p.
              Consumes-step (expect_tag-Returns o size marker) λ _. leaves (omega arith)

  pub skip_section-Consumes {ℓ} :
      {S : Type ℓ} (input : Bytes) (s : S)
      → Consumes (length input) (skip_sized input >>= λ (i, _). ok (i, s))
  skip_section-Consumes input s = Consumes-bind (skip_sized-Consumes input) λ (i, _) h. leaves h

  pack_section-Consumes :
      (num : ℕ) (tag : Property) (input : Bytes) (ds : List (Option ℕ))
      → Consumes (length input) (pack_section num tag input ds)
  unfolding pack_section
  pack_section-Consumes num crc input ds =
      Consumes-step (Returns-ok_or (try_usize num) (error input too_large))
        λ n. parse_digests-Consumes input n
  pack_section-Consumes num _ input ds = skip_section-Consumes input ds

  pub pack_info-Consumes : (input : Bytes) → Consumes (length input - 1) (PackInfo.parse input)
  unfolding PackInfo.parse
  pack_info-Consumes input = Consumes-bind (parse_pack_start-Consumes input) λ (i, (pos, num)) h.
      Consumes-bind (repeat-Consumes sevenzip_varuint64_decode decode-Consumes num i)
        λ (j, sizes) k.
          Consumes-bind (read_sections-Consumes (pack_section num) (pack_section-Consumes num) j [])
            λ (l, ds) m. leaves (omega arith)
