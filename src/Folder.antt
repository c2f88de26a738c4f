-- ===== src/Folder.antt =====
-- src/folder.rs: the description of a folder (`Folder`), read with `Folder::parse` and walked with
-- `scan_folder`.
pub mod Counts
pub mod Graph
pub mod Scan
pub mod Valid
use r7z.Prelude.{
  ℕ, zero, suc, ◌+◌, List, [], ◌∷◌, ok, ◌>>=◌, ◌>>◌, ok_or, if◌then◌else◌, ◌==◌, try_usize,
}
use r7z.Nom.{Bytes, IResult, error, too_large}
use r7z.Nom.Repeat.{repeat, skip_repeat}
use r7z.Packages.{Packages}
use r7z.Parsers.{sevenzip_varuint64_decode}
use r7z.CoderInfo
use r7z.CoderInfo.{CoderInfo}
use Counts.{StreamCounts, no_streams, checked_coder_count, add_coder, layout, checked_stream_index}

pub record Folder : Type 0 where
  pub coders : List CoderInfo
  pub bind_pairs : List (ℕ × ℕ)
  pub packed_indices : List ℕ

abbrev pub sum_outputs : List CoderInfo → ℕ
sum_outputs [] = 0
sum_outputs (c ∷ cs) = c.num_out_streams + sum_outputs cs

-- `Folder::total_out_streams`; the sum of `usize` values does not wrap here, and a parsed folder has
-- 16384 output streams at most.
unfoldable pub total_out_streams : Folder → ℕ
total_out_streams f = sum_outputs f.coders

-- One bind pair, each index checked against its total.
unfoldable pub parse_bind_pair : StreamCounts → Bytes → IResult (ℕ × ℕ)
parse_bind_pair counts input = do
  (input, in_idx) ← sevenzip_varuint64_decode input
  checked_stream_index input in_idx counts.inputs
  (input, out_idx) ← sevenzip_varuint64_decode input
  checked_stream_index input out_idx counts.outputs
  ok (input, (in_idx, out_idx))

unfoldable pub parse_packed_index : StreamCounts → Bytes → IResult ℕ
parse_packed_index counts input = do
  (input, idx) ← sevenzip_varuint64_decode input
  checked_stream_index input idx counts.inputs
  ok (input, idx)

-- Written out only where their number is not 1.
unfoldable pub parse_packed_indices : StreamCounts → ℕ → Bytes → IResult (List ℕ)
parse_packed_indices counts num_packed input =
    if num_packed == 1 then ok (input, []) else repeat (parse_packed_index counts) num_packed input

unfoldable pub skip_packed_indices : StreamCounts → ℕ → Bytes → IResult (Unit {0})
skip_packed_indices counts num_packed input =
    if num_packed == 1
    then ok (input, tt)
    else skip_repeat (parse_packed_index counts) num_packed input

module _ ⦃pk : Packages⦄ where
  -- The loop over the coders, with the running totals.
  unfoldable pub parse_coders : ℕ → StreamCounts → Bytes → IResult (List CoderInfo × StreamCounts)
  parse_coders zero counts input = ok (input, ([], counts))
  parse_coders (suc n) counts input = do
    (input, coder) ← CoderInfo.parse input
    counts ← add_coder counts input coder.num_in_streams coder.num_out_streams
    (input, (coders, counts)) ← parse_coders n counts input
    ok (input, (coder ∷ coders, counts))

  unfoldable pub scan_coders : ℕ → StreamCounts → Bytes → IResult StreamCounts
  scan_coders zero counts input = ok (input, counts)
  scan_coders (suc n) counts input = do
    (input, coder) ← CoderInfo.parse_ref input
    counts ← add_coder counts input coder.num_in_streams coder.num_out_streams
    scan_coders n counts input

  -- `Folder::parse`
  unfoldable pub parse : Bytes → IResult Folder
  parse input = do
    (input, num_coders) ← sevenzip_varuint64_decode input
    num_coders ← checked_coder_count input num_coders
    (input, (coders, counts)) ← parse_coders num_coders no_streams input
    (num_bind_pairs, num_packed) ← layout counts input
    (input, pairs) ← repeat (parse_bind_pair counts) num_bind_pairs input
    (input, packed) ← parse_packed_indices counts num_packed input
    ok (input, record { coders = coders; bind_pairs = pairs; packed_indices = packed })

  unfoldable pub scan_folder : Bytes → IResult ℕ
  scan_folder input = do
    (input, num_coders) ← sevenzip_varuint64_decode input
    num_coders ← checked_coder_count input num_coders
    (input, counts) ← scan_coders num_coders no_streams input
    (num_bind_pairs, num_packed) ← layout counts input
    (input, _) ← skip_repeat (parse_bind_pair counts) num_bind_pairs input
    (input, _) ← skip_packed_indices counts num_packed input
    total_out ← ok_or (try_usize counts.outputs) (error input too_large)
    ok (input, total_out)
