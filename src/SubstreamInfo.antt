-- ===== src/SubstreamInfo.antt =====
-- src/stream_info.rs: the streams of each folder (`SubstreamInfo`), read with
-- `SubstreamInfo::parse` and walked with `scan_substream_info`.
pub mod Totals
use r7z.Prelude.{
  ℕ, zero, suc, ◌+◌, ◌-◌, ◌*◌, ◌/◌, Option, none, some, List, [], ◌∷◌, ◌++◌, length, replicate,
  Result, ok, err, ◌>>=◌, ◌>>◌, ok_or, if◌then◌else◌, ltb, try_usize, checked_add,
}
use r7z.Nom.{Bytes, IResult, ParseError, error, eof, too_large}
use r7z.Nom.Repeat.{repeat, skip_repeat}
use r7z.Packages.{Packages}
use r7z.Parsers.{sevenzip_varuint64_decode, scan_digests}
use r7z.Property
use r7z.Property.{Property, sub_streams_info, num_unpack_stream, size, crc}
use r7z.Sections.{skip_sized, read_sections}
use r7z.Digests.{parse_stream_digests}
use r7z.PackInfo.{expect_tag}
use Totals.{checked_substream_total, checked_substream_size_count, check_substream_digest_limit}

pub record SubstreamInfo : Type 0 where
  pub num_unpack_streams_per_folder : List ℕ
  pub unpack_sizes : List ℕ
  pub digests : List (Option ℕ)

-- `if sizes_to_read > input.len()`
unfoldable pub check_sizes_fit : Bytes → ℕ → Result ParseError (Unit {0})
check_sizes_fit input sizes_to_read =
    if ltb (length input) sizes_to_read then err (error input eof) else ok tt

module _ ⦃pk : Packages⦄ where
  -- The arms of `match tag` but `END`.
  unfoldable pub substream_section : ℕ → Property → Bytes → SubstreamInfo → IResult SubstreamInfo
  substream_section num_folders num_unpack_stream input s = do
    (input, counts) ← repeat sevenzip_varuint64_decode num_folders input
    checked_substream_total input counts
    ok (input, record s { num_unpack_streams_per_folder = counts })
  substream_section num_folders size input s = do
    sizes_to_read ← checked_substream_size_count input s.num_unpack_streams_per_folder
    check_sizes_fit input sizes_to_read
    (input, sizes) ← repeat sevenzip_varuint64_decode sizes_to_read input
    ok (input, record s { unpack_sizes = s.unpack_sizes ++ sizes })
  substream_section num_folders crc input s = do
    total ← checked_substream_total input s.num_unpack_streams_per_folder
    check_substream_digest_limit input total
    (input, crcs) ← parse_stream_digests input total
    ok (input, record s { digests = crcs })
  substream_section num_folders tag input s = do (input, _) ← skip_sized input; ok (input, s)

  -- `SubstreamInfo::parse`
  unfoldable pub parse : Bytes → ℕ → IResult SubstreamInfo
  parse orig_input num_folders = do
    (input, tag) ← Property.parse orig_input
    expect_tag orig_input sub_streams_info tag
    read_sections (substream_section num_folders) input (record {
      num_unpack_streams_per_folder = replicate num_folders 1;
      unpack_sizes = [];
      digests = [];
    })

-- The state of the scan: the explicit sizes to read, and the streams of all folders.
pub record ScanTotals : Type 0 where
  pub sizes_to_read : ℕ
  pub total_streams : ℕ

module _ ⦃pk : Packages⦄ where
  -- The counts of the folders, added up while they are read. The errors stand at the input before
  -- the count that is too large.
  unfoldable pub scan_counts : ℕ → ScanTotals → Bytes → IResult ScanTotals
  scan_counts zero t input = ok (input, t)
  scan_counts (suc n) t input = do
    (rest, count) ← sevenzip_varuint64_decode input
    count ← ok_or (try_usize count) (error input too_large)
    sizes ← ok_or (checked_add t.sizes_to_read (count - 1)) (error input too_large)
    total ← ok_or (checked_add t.total_streams count) (error input too_large)
    scan_counts n (record { sizes_to_read = sizes; total_streams = total }) rest

  unfoldable pub scan_substream_section : ℕ → Property → Bytes → ScanTotals → IResult ScanTotals
  scan_substream_section num_folders num_unpack_stream input t =
      scan_counts num_folders (record { sizes_to_read = 0; total_streams = 0 }) input
  scan_substream_section num_folders size input t = do
    check_sizes_fit input t.sizes_to_read
    (input, _) ← skip_repeat sevenzip_varuint64_decode t.sizes_to_read input
    ok (input, t)
  scan_substream_section num_folders crc input t = do
    check_substream_digest_limit input t.total_streams
    (input, _) ← scan_digests input t.total_streams
    ok (input, t)
  scan_substream_section num_folders tag input t = do (input, _) ← skip_sized input; ok (input, t)

  unfoldable pub scan_substream_info : Bytes → ℕ → IResult (Unit {0})
  scan_substream_info orig num_folders = do
    (input, tag) ← Property.parse orig
    expect_tag orig sub_streams_info tag
    (input, _) ←
        read_sections (scan_substream_section num_folders) input
          (record { sizes_to_read = 0; total_streams = num_folders })
    ok (input, tt)
