-- ===== src/Folder/Graph.antt =====
-- src/folder.rs: `FolderGraph`, the resolved connections between the coders of a folder. Every
-- failure of this part is `R7zError::InvalidFolderGraph`, so the results are options, with one more
-- outcome for the fuel of the execution order.
pub mod Connections
pub mod Order
pub mod Laws
pub mod Final
use r7z.Prelude.{ℕ, Option, none, some, List, [], ◌∷◌, length, Result, ok, err, ◌>>=◌, ok_or}
use r7z.Folder.{Folder}
use Connections.{
  GraphError, invalid_folder_graph, StreamOwners, Bindings, from_coders, bind_all, final_output,
  packed_inputs,
}
use Order.{execution_order}

-- Indices of coders and streams are numbers.
pub record FolderGraph : Type 0 where
  pub execution : List ℕ
  pub packed : List (ℕ × ℕ)
  pub final : ℕ
  pub input_owners : List ℕ
  pub output_owners : List ℕ
  pub input_sources : List (Option ℕ)

-- `Folder::graph`
unfoldable pub graph : Folder → Result GraphError FolderGraph
graph folder = do
  owners ← from_coders folder.coders
  bindings ← bind_all folder.bind_pairs owners (length folder.coders)
  final ← final_output bindings
  packed ← packed_inputs bindings folder.packed_indices
  order ← execution_order bindings.edges bindings.indegree
  ok (record {
    execution = order;
    packed = packed;
    final = final;
    input_owners = owners.inputs;
    output_owners = owners.outputs;
    input_sources = bindings.input_sources;
  })
