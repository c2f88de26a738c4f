-- ===== src/OutputSizes.antt =====
-- src/codec/sizes.rs: the output sizes of the coders of a folder, declared in a table that may be
-- incomplete, and the final size that is declared apart.
pub mod Laws
use r7z.Prelude.{
  ℕ, Bool, true, false, not, Option, none, some, List, length, get_elem?, Result, ok, err, ◌>>=◌,
  ◌>>◌, if◌then◌else◌, ◌==◌, ltb,
}
use r7z.Folder.{Folder, total_out_streams}
use r7z.Folder.Graph.{FolderGraph}

-- `R7zError`, as far as the sizes name it.
pub data SizeError : Type 0 where
  parse_error invalid_options invalid_graph : SizeError

pub data OutputSize : Type 0 where
  known : ℕ → OutputSize
  unknown : OutputSize

-- `OutputSize::reconcile`
unfoldable pub reconcile : OutputSize → OutputSize → Result SizeError OutputSize
reconcile (known a) (known b) = if a == b then ok (known a) else err parse_error
reconcile (known a) unknown = ok (known a)
reconcile unknown size = ok size

-- `OutputSize::require`
unfoldable pub require : OutputSize → Result SizeError ℕ
require (known size) = ok size
require unknown = err invalid_options

pub record CoderOutputSizes : Type 0 where
  pub declared : List ℕ
  pub final_index : ℕ
  pub final_size : ℕ

-- `is_some_and(|&size| size != final_size)`
unfoldable pub contradicts : ℕ → Option ℕ → Bool
contradicts final_size none = false
contradicts final_size (some size) = not (size == final_size)

-- `CoderOutputSizes::partial`
unfoldable pub partial_sizes : Folder → FolderGraph → ℕ → List ℕ → Result SizeError CoderOutputSizes
partial_sizes folder graph final_size declared =
    if ltb (total_out_streams folder) (length declared)
    then err invalid_graph
    else if contradicts final_size (get_elem? declared graph.final)
    then err parse_error
    else ok (record { declared = declared; final_index = graph.final; final_size = final_size })

-- `CoderOutputSizes::complete`
unfoldable pub complete_sizes :
    Folder → FolderGraph → ℕ → List ℕ → Result SizeError CoderOutputSizes
complete_sizes folder graph final_size declared =
    if not (length declared == total_out_streams folder)
    then err invalid_graph
    else partial_sizes folder graph final_size declared

-- `map_or(Unknown, Known)`
unfoldable pub from_declared : Option ℕ → OutputSize
from_declared none = unknown
from_declared (some size) = known size

-- `CoderOutputSizes::get`
unfoldable pub get_size : CoderOutputSizes → ℕ → OutputSize
get_size sizes index =
    if index == sizes.final_index
    then known sizes.final_size
    else from_declared (get_elem? sizes.declared index)
