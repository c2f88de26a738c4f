-- ===== src/SubstreamInfo/Totals.antt =====
-- src/stream_info.rs: the checked sums over the stream counts of the folders.
use r7z.Prelude.{
  ℕ, ◌-◌, ◌*◌, ◌/◌, List, [], ◌∷◌, Result, ok, err, ◌>>=◌, ok_or, if◌then◌else◌, ltb, try_usize,
  checked_add,
}
use r7z.Nom.{Bytes, ParseError, error, too_large}

-- `Option<u32>` takes 8 bytes.
abbrev pub max_substream_digests : ℕ
max_substream_digests = 64 * 1024 * 1024 / 8

-- The fold of `checked_substream_total` from a total on.
unfoldable pub add_counts : Bytes → ℕ → List ℕ → Result ParseError ℕ
add_counts input total [] = ok total
add_counts input total (count ∷ counts) = do
  count ← ok_or (try_usize count) (error input too_large)
  total ← ok_or (checked_add total count) (error input too_large)
  add_counts input total counts

unfoldable pub checked_substream_total : Bytes → List ℕ → Result ParseError ℕ
checked_substream_total input counts = add_counts input 0 counts

-- The fold of `checked_substream_size_count`: the last size of each folder is implicit.
unfoldable pub add_explicit_sizes : Bytes → ℕ → List ℕ → Result ParseError ℕ
add_explicit_sizes input total [] = ok total
add_explicit_sizes input total (count ∷ counts) = do
  count ← ok_or (try_usize count) (error input too_large)
  total ← ok_or (checked_add total (count - 1)) (error input too_large)
  add_explicit_sizes input total counts

unfoldable pub checked_substream_size_count : Bytes → List ℕ → Result ParseError ℕ
checked_substream_size_count input counts = add_explicit_sizes input 0 counts

unfoldable pub check_substream_digest_limit : Bytes → ℕ → Result ParseError (Unit {0})
check_substream_digest_limit input total =
    if ltb max_substream_digests total then err (error input too_large) else ok tt
