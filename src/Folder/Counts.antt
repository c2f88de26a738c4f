-- ===== src/Folder/Counts.antt =====
-- src/folder.rs: the running stream totals of a folder (`FolderStreamCounts`) and their limits.
use r7z.Prelude.{
  ℕ, ◌||◌, ◌&&◌, Result, ok, err, ◌>>=◌, ok_or, if◌then◌else◌, ltb, leb, try_usize, checked_add,
  checked_sub,
}
use r7z.Nom.{Bytes, ParseError, failure, too_large, verify}

abbrev pub max_folder_streams : ℕ
max_folder_streams = 16_384

unfoldable pub checked_coder_count : Bytes → ℕ → Result ParseError ℕ
checked_coder_count input count = do
  count ← ok_or (try_usize count) (failure input too_large)
  if leb 1 count && leb count max_folder_streams then ok count else err (failure input too_large)

pub record StreamCounts : Type 0 where
  pub inputs : ℕ
  pub outputs : ℕ

-- `FolderStreamCounts::default()`
abbrev pub no_streams : StreamCounts
no_streams = record { inputs = 0; outputs = 0 }

unfoldable pub add_coder : StreamCounts → Bytes → ℕ → ℕ → Result ParseError StreamCounts
add_coder counts input num_inputs num_outputs = do
  ins ← ok_or (checked_add counts.inputs num_inputs) (failure input too_large)
  outs ← ok_or (checked_add counts.outputs num_outputs) (failure input too_large)
  if ltb max_folder_streams ins || ltb max_folder_streams outs
      then err (failure input too_large)
      else ok (record { inputs = ins; outputs = outs })

-- The number of bind pairs and of packed streams.
unfoldable pub layout : StreamCounts → Bytes → Result ParseError (ℕ × ℕ)
layout counts input = do
  num_bind_pairs ← ok_or (checked_sub counts.outputs 1) (failure input verify)
  num_packed ← ok_or (checked_sub counts.inputs num_bind_pairs) (failure input verify)
  ok (num_bind_pairs, num_packed)

unfoldable pub checked_stream_index : Bytes → ℕ → ℕ → Result ParseError (Unit {0})
checked_stream_index input index total =
    if ltb index total then ok tt else err (failure input verify)
