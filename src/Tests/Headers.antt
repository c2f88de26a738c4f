-- ===== src/Tests/Headers.antt =====
-- The blocks of the header at concrete inputs.
use r7z.Prelude.{
  ℕ, ◌≡◌, ◌≢◌, refl, Option, none, some, List, [], ◌∷◌, ◌++◌, ok, out_of_fuel, ◌>>=◌, to_option,
  arith,
}
use r7z.Nom.{Bytes, map_value}
use r7z.Property
use r7z.Property.{Property}
use r7z.Nom.Repeat.{skip_repeat}
use r7z.Parsers.{scan_digests, sevenzip_varuint64_decode, decode_loop}
use r7z.Folder.Counts.{checked_coder_count, add_coder, layout}
use r7z.Write.Bitmap.{bools_to_bytes, set_bits}
use r7z.CoderInfo
use r7z.CoderInfo.{CoderInfo, parse_ref}
use r7z.CoderInfo.Laws.{own, parse-parse_ref}
use r7z.Folder
use r7z.Folder.{Folder, total_out_streams, scan_folder}
use r7z.Folder.Scan.{scan_folder-parse}
use r7z.Digests.{parse_digests, parse_stream_digests}
use r7z.Digests.Scan.{scan_digests-parse_digests, parse_stream_digests-parse_digests}
use r7z.Digests.RoundTrip.{parse_digests-write_optional_crcs}
use r7z.Write.Streams.Crcs.{crc_bytes, write_optional_crcs}
use r7z.Slice.{Slice, bytes_subslice}
use r7z.Slice.Laws.{bytes_subslice-Within}
use r7z.StreamInfo
use r7z.Termination.Streams.{parse_with_external-ne-out_of_fuel}
use r7z.Tests.Bundle.{bundle}

-- One Copy coder, and one LZMA coder with five bytes of properties.
abbrev copy_folder : Bytes
copy_folder = 1 ∷ 1 ∷ 0 ∷ 7 ∷ []

scan_copy_folder : scan_folder copy_folder ≡ ok (7 ∷ [], 1)
unfolding scan_folder sevenzip_varuint64_decode decode_loop checked_coder_count Folder.scan_coders
    parse_ref CoderInfo.parse_arity CoderInfo.parse_properties add_coder layout skip_repeat
    Folder.skip_packed_indices
scan_copy_folder = refl

abbrev sparse_digests : List (Option ℕ)
sparse_digests = some 0x01020304 ∷ none ∷ []

write_sparse_digests : write_optional_crcs sparse_digests ≡ 10 ∷ 0 ∷ 0x80 ∷ 4 ∷ 3 ∷ 2 ∷ 1 ∷ []
unfolding write_optional_crcs bools_to_bytes set_bits crc_bytes
write_sparse_digests = refl

parse-parse_ref_example :
    CoderInfo.parse (0x21 ∷ 0x21 ∷ 1 ∷ 24 ∷ [])
    ≡ map_value own (parse_ref (0x21 ∷ 0x21 ∷ 1 ∷ 24 ∷ []))
parse-parse_ref_example = parse-parse_ref (0x21 ∷ 0x21 ∷ 1 ∷ 24 ∷ [])

scan_folder-parse_example :
    scan_folder copy_folder ≡ map_value total_out_streams (Folder.parse copy_folder)
scan_folder-parse_example = scan_folder-parse copy_folder

abbrev digest_bytes : Bytes
digest_bytes = 0 ∷ 0x80 ∷ 4 ∷ 3 ∷ 2 ∷ 1 ∷ 9 ∷ []

scan_digests-parse_digests_example :
    to_option (scan_digests digest_bytes 2)
    ≡ to_option (map_value (λ _. tt {0}) (parse_digests digest_bytes 2))
scan_digests-parse_digests_example = scan_digests-parse_digests digest_bytes 2 (omega arith)

parse_stream_digests-parse_digests_example :
    to_option (parse_stream_digests digest_bytes 2) ≡ to_option (parse_digests digest_bytes 2)
parse_stream_digests-parse_digests_example =
    parse_stream_digests-parse_digests digest_bytes 2 (omega arith)

parse_digests-write_optional_crcs_example :
    (Property.parse (write_optional_crcs sparse_digests ++ (9 ∷ [])) >>= λ (input, tag).
    parse_digests input 2)
    ≡ ok (9 ∷ [], sparse_digests)
parse_digests-write_optional_crcs_example =
    parse_digests-write_optional_crcs sparse_digests (9 ∷ []) (omega arith, (tt, tt)) refl

abbrev buffer : Slice
buffer = record { ptr = 4096; bytes = 1 ∷ 2 ∷ 3 ∷ 4 ∷ [] }

abbrev middle : Slice
middle = record { ptr = 4097; bytes = 2 ∷ 3 ∷ [] }

bytes_subslice-Within_example : bytes_subslice buffer middle [] ≡ ok (2 ∷ 3 ∷ [])
bytes_subslice-Within_example = bytes_subslice-Within buffer middle [] (record {
  before = 1 ∷ [];
  after = 4 ∷ [];
  at_address = refl;
  same_bytes = refl;
  addressable = omega arith;
})

abbrev stream_bytes : Slice
stream_bytes = record { ptr = 4096; bytes = 6 ∷ 0 ∷ 1 ∷ 9 ∷ 5 ∷ 0 ∷ 0 ∷ [] }

parse_with_external-ne-out_of_fuel_example :
    StreamInfo.parse_with_external stream_bytes stream_bytes [] ≢ out_of_fuel
parse_with_external-ne-out_of_fuel_example =
    parse_with_external-ne-out_of_fuel stream_bytes stream_bytes []
