-- ===== src/Folder/Graph/Laws.antt =====
-- src/folder.rs: `Folder::graph` as a whole, and its final output.
use r7z.Prelude.{
  ℕ, ◌+◌, ◌≢◌, Bool, true, not, Option, none, some, List, [], ◌∷◌, length, set, out_of_fuel,
}
use r7z.Nom.Consumes.{Returns, gives, refuses, Returns-bind, Returns-ok_or, Returns-ne-out_of_fuel}
use r7z.CoderInfo.{CoderInfo}
use r7z.Method.{method_from_id}
use r7z.Method.Registry.{SevenZMethod}
use r7z.Folder.{Folder}
use r7z.Folder.Graph.{graph}
use r7z.Folder.Graph.Connections.{
  known_arity, arity_try_from, arities, check_totals, from_coders, StreamArity, StreamOwners,
  Bindings, from_raw, bind, bind_pairs_loop, bind_all, only_one, final_output, explicit_inputs,
  packed_inputs, differs,
}
use r7z.Folder.Graph.Order.Laws.{execution_order-Returns, valid-Returns, guard_graph-Returns}

known_arity-Returns : (m : Option SevenZMethod) → Returns (known_arity m)
unfolding known_arity
known_arity-Returns none = gives
known_arity-Returns (some m) = Returns-bind (Returns-ok_or _ _) λ a. gives

arity_try_from-Returns : (c : CoderInfo) → Returns (arity_try_from c)
unfolding arity_try_from
arity_try_from-Returns c =
    Returns-bind (known_arity-Returns (method_from_id c.codec_id)) λ expected.
      Returns-bind
        (guard_graph-Returns (not (differs (c.num_in_streams, c.num_out_streams) expected)))
        λ _. Returns-bind (valid-Returns _) λ ins.
          Returns-bind (valid-Returns _) λ outs. Returns-bind (guard_graph-Returns _) λ _. gives

arities-Returns : (cs : List CoderInfo) → Returns (arities cs)
unfolding arities
arities-Returns [] = gives
arities-Returns (c ∷ cs) =
    Returns-bind (arity_try_from-Returns c) λ a. Returns-bind (arities-Returns cs) λ rest. gives

check_totals-Returns :
    (ins outs : ℕ) (found : List StreamArity) → Returns (check_totals ins outs found)
unfolding check_totals
check_totals-Returns ins outs [] = gives
check_totals-Returns ins outs (a ∷ rest) =
    Returns-bind (valid-Returns _)
      λ ins'. Returns-bind (valid-Returns _) λ outs'. check_totals-Returns ins' outs' rest

from_coders-Returns : (cs : List CoderInfo) → Returns (from_coders cs)
unfolding from_coders
from_coders-Returns cs =
    Returns-bind (arities-Returns cs)
      λ found. Returns-bind (check_totals-Returns 0 0 found) λ _. gives

from_raw-Returns : (raw total : ℕ) → Returns (from_raw raw total)
unfolding from_raw
from_raw-Returns raw total =
    Returns-bind (valid-Returns _) λ i. Returns-bind (guard_graph-Returns _) λ _. gives

bind-Returns : (b : Bindings) (i o : ℕ) (owners : StreamOwners) → Returns (bind b i o owners)
unfolding bind
bind-Returns b i o owners = Returns-bind (from_raw-Returns i (length owners.inputs)) λ input.
    Returns-bind (from_raw-Returns o (length owners.outputs)) λ output.
      Returns-bind (valid-Returns _) λ input_bound. Returns-bind (valid-Returns _) λ output_bound.
        Returns-bind (guard_graph-Returns _) λ _. Returns-bind (valid-Returns _) λ source.
          Returns-bind (valid-Returns _) λ target. Returns-bind (guard_graph-Returns _) λ _.
            Returns-bind (valid-Returns _) λ _.
              Returns-bind (valid-Returns _)
                λ out_edges. Returns-bind (valid-Returns _) λ degree. gives

bind_pairs_loop-Returns :
    (pairs : List (ℕ × ℕ)) (owners : StreamOwners) (b : Bindings)
    → Returns (bind_pairs_loop pairs owners b)
unfolding bind_pairs_loop
bind_pairs_loop-Returns [] owners b = gives
bind_pairs_loop-Returns ((i, o) ∷ pairs) owners b =
    Returns-bind (bind-Returns b i o owners) λ b'. bind_pairs_loop-Returns pairs owners b'

bind_all-Returns :
    (pairs : List (ℕ × ℕ)) (owners : StreamOwners) (n : ℕ) → Returns (bind_all pairs owners n)
unfolding bind_all
bind_all-Returns pairs owners n =
    Returns-bind (valid-Returns _)
      λ k. Returns-bind (guard_graph-Returns _) λ _. bind_pairs_loop-Returns pairs owners _

only_one-Returns : (is : List ℕ) → Returns (only_one is)
unfolding only_one
only_one-Returns [] = refuses
only_one-Returns (i ∷ []) = gives
only_one-Returns (i ∷ j ∷ is) = refuses

explicit_inputs-Returns :
    (bound : List Bool) (packed : ℕ) (raws : List ℕ) (seen : List Bool)
    → Returns (explicit_inputs bound packed raws seen)
unfolding explicit_inputs
explicit_inputs-Returns bound packed [] seen = gives
explicit_inputs-Returns bound packed (raw ∷ raws) seen =
    Returns-bind (from_raw-Returns raw (length bound)) λ input.
      Returns-bind (valid-Returns _) λ is_bound. Returns-bind (valid-Returns _) λ was_seen.
        Returns-bind (guard_graph-Returns _) λ _.
          Returns-bind (explicit_inputs-Returns bound (packed + 1) raws (set seen input true))
            λ rest. gives

packed_inputs-Returns : (b : Bindings) (is : List ℕ) → Returns (packed_inputs b is)
unfolding packed_inputs
packed_inputs-Returns b [] = Returns-bind (only_one-Returns _) λ i. gives
packed_inputs-Returns b (i ∷ is) =
    Returns-bind (guard_graph-Returns _) λ _. explicit_inputs-Returns b.bound_inputs 0 (i ∷ is) _

-- The graph of any folder is resolved or refused: the loop over the coders that are ready ends.
pub graph-ne-out_of_fuel : (folder : Folder) → graph folder ≢ out_of_fuel
unfolding graph final_output
graph-ne-out_of_fuel folder = Returns-ne-out_of_fuel (
    Returns-bind (from_coders-Returns folder.coders) λ owners.
      Returns-bind (bind_all-Returns folder.bind_pairs owners (length folder.coders)) λ b.
        Returns-bind (only_one-Returns _) λ final.
          Returns-bind (packed_inputs-Returns b folder.packed_indices)
            λ packed. Returns-bind (execution_order-Returns b.edges b.indegree) λ order. gives)
