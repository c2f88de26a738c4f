-- ===== src/Folder/Graph/Order/Laws.antt =====
-- src/folder.rs: the fuel of `Bindings::execution_order`.
use r7z.Prelude.{
  ℕ, zero, suc, ◌+◌, ◌≤◌, ◌≡◌, Option, some, List, [], ◌∷◌, length, get_elem?, set, ok, Bool, true,
  false, >>=-eq-ok, if◌then◌else◌, ◌==◌, checked_sub, arith,
}
use r7z.Nom.Consumes.{Returns, gives, refuses, Returns-bind, Returns-step, Returns-ok_or}
use r7z.Folder.Graph.Connections.{invalid_folder_graph, valid, guard_graph}
use r7z.Folder.Graph.Order.{ready_from, release, order_loop, sum, execution_order}

sum-set : (ds : List ℕ) (i d v : ℕ) → get_elem? ds i ≡ some d → sum (set ds i v) + d ≡ sum ds + v
unfolding sum
sum-set [] i d v e = cc
sum-set (x ∷ ds) zero d v e = ground arith
sum-set (x ∷ ds) (suc i) d v e = omega (arith, sum-set ds i d v e)

-- What leaves the degrees enters the stack at most once.
release-sum :
    (nexts indegree ready indegree' ready' : List ℕ)
    → release nexts indegree ready ≡ ok (indegree', ready')
    → sum indegree' + length ready' ≤ sum indegree + length ready
unfolding release valid
release-sum [] indegree ready indegree' ready' e = ground arith
release-sum (next ∷ nexts) indegree ready indegree' ready' e =
    let (d, e₁, k₁) = >>=-eq-ok (valid (get_elem? indegree next)) _ e in
    let (d', e₂, k₂) = >>=-eq-ok (valid (checked_sub d 1)) _ k₁ in
    ground (
      arith,
      e₁,
      e₂,
      k₂,
      sum-set indegree next d d',
      release-sum nexts (set indegree next d') (if d' == 0 then next ∷ ready else ready) indegree'
          ready',
    )

pub valid-Returns {ℓ} : {A : Type ℓ} (o : Option A) → Returns (valid o)
unfolding valid
valid-Returns o = Returns-ok_or o invalid_folder_graph

pub guard_graph-Returns : (b : Bool) → Returns (guard_graph b)
unfolding guard_graph
guard_graph-Returns true = gives
guard_graph-Returns false = refuses

release-Returns : (nexts indegree ready : List ℕ) → Returns (release nexts indegree ready)
unfolding release
release-Returns [] indegree ready = gives
release-Returns (next ∷ nexts) indegree ready =
    Returns-bind (valid-Returns _)
      λ d. Returns-bind (valid-Returns _) λ d'. release-Returns nexts (set indegree next d') _

-- As many rounds as the degrees and the stack count are enough.
order_loop-Returns :
    (fuel : ℕ) (edges : List (List ℕ)) (indegree ready : List ℕ)
    → sum indegree + length ready ≤ fuel
    → Returns (order_loop fuel edges indegree ready)
unfolding order_loop
order_loop-Returns zero edges indegree [] h = gives
order_loop-Returns (suc fuel) edges indegree [] h = gives
order_loop-Returns zero edges indegree (node ∷ ready) h = absurd (omega arith)
order_loop-Returns (suc fuel) edges indegree (node ∷ ready) h =
    Returns-bind (valid-Returns _) λ nexts.
      Returns-step (release-Returns nexts indegree ready) λ (indegree', ready') e.
        Returns-bind
          (order_loop-Returns fuel edges indegree' ready'
            (omega (arith, release-sum nexts indegree ready indegree' ready' e)))
          λ order. gives

pub execution_order-Returns :
    (edges : List (List ℕ)) (indegree : List ℕ) → Returns (execution_order edges indegree)
unfolding execution_order
execution_order-Returns edges indegree =
    Returns-bind (order_loop-Returns _ edges indegree (ready_from 0 indegree []) (omega arith))
      λ order. Returns-bind (guard_graph-Returns _) λ _. gives
