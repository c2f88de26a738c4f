-- ===== src/Folder/Graph/Order.antt =====
-- src/folder.rs: `Bindings::execution_order`, the order in which the coders run.
pub mod Laws
use r7z.Prelude.{
  ℕ, zero, suc, ◌+◌, ◌-◌, Option, List, [], ◌∷◌, ◌++◌, length, get_elem?, set, Result, ok, err,
  out_of_fuel, ◌>>=◌, ◌>>◌, if◌then◌else◌, ◌==◌, checked_sub,
}
use r7z.Folder.Graph.Connections.{GraphError, invalid_folder_graph, valid, guard_graph}

-- The indices, from `index` on, whose degree is 0. `ready` is a stack with its top in front, so the
-- indices are pushed one by one.
unfoldable pub ready_from : ℕ → List ℕ → List ℕ → List ℕ
ready_from index [] ready = ready
ready_from index (degree ∷ ds) ready =
    ready_from (index + 1) ds (if degree == 0 then index ∷ ready else ready)

-- The loop over the edges of one node.
unfoldable pub release : List ℕ → List ℕ → List ℕ → Result GraphError (List ℕ × List ℕ)
release [] indegree ready = ok (indegree, ready)
release (next ∷ nexts) indegree ready = do
  degree ← valid (get_elem? indegree next)
  degree ← valid (checked_sub degree 1)
  release nexts (set indegree next degree) (if degree == 0 then next ∷ ready else ready)

-- `while let Some(node) = ready.pop()`: a round takes a node off the stack and moves others from the
-- degrees to it, so the sum of the degrees and the stack bounds the rounds. Gives the order behind
-- the nodes before.
unfoldable pub order_loop : ℕ → List (List ℕ) → List ℕ → List ℕ → Result GraphError (List ℕ)
order_loop fuel edges indegree [] = ok []
order_loop zero edges indegree (node ∷ ready) = out_of_fuel
order_loop (suc fuel) edges indegree (node ∷ ready) = do
  nexts ← valid (get_elem? edges node)
  (indegree, ready) ← release nexts indegree ready
  order ← order_loop fuel edges indegree ready
  ok (node ∷ order)

unfoldable pub sum : List ℕ → ℕ
sum [] = 0
sum (d ∷ ds) = d + sum ds

-- `Bindings::execution_order`
unfoldable pub execution_order : List (List ℕ) → List ℕ → Result GraphError (List ℕ)
execution_order edges indegree = do
  let ready = ready_from 0 indegree []
  order ← order_loop (sum indegree + length ready) edges indegree ready
  guard_graph (length order == length indegree)
  ok order
