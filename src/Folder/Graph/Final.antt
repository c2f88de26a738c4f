-- ===== src/Folder/Graph/Final.antt =====
-- src/folder.rs: `Bindings::final_output`, the output that no pair binds.
use mathlib.Core.Path.{subst}
use r7z.Prelude.{
  ℕ, zero, suc, ◌+◌, ◌≤◌, ◌≡◌, ◌≢◌, ◌↔◌, refl, Bool, true, false, some, List, [], ◌∷◌, get_elem?,
  ok, arith, All, set, replicate, length, ◌<◌, ◌∙◌, ap, sym, checked_sub, ◌==◌, not, ◌||◌,
  >>=-eq-ok, ok_inj, err, out_of_fuel, ◌>>=◌, get_elem?-set_ne, Result,
}
use r7z.Folder.{Folder}
use r7z.Folder.Graph.{FolderGraph, graph}
use r7z.Folder.Graph.Order.{execution_order}
use r7z.Folder.Graph.Connections.{
  GraphError, Bindings, StreamOwners, unbound_from, only_one, final_output, from_raw, valid,
  guard_graph, bind, bind_pairs_loop, bind_all, from_coders, packed_inputs,
}

none_unbound : (bs : List Bool) (k j : ℕ) → unbound_from k bs ≡ [] → get_elem? bs j ≢ some false
unfolding unbound_from
none_unbound [] k j e h = cc
none_unbound (true ∷ bs) k zero e h = cc
none_unbound (true ∷ bs) k (suc j) e h = none_unbound bs (k + 1) j e h
none_unbound (false ∷ bs) k j e h = cc

unbound_above : (bs : List Bool) (k i : ℕ) (is : List ℕ) → unbound_from k bs ≡ i ∷ is → k ≤ i
unfolding unbound_from
unbound_above [] k i is e = cc
unbound_above (true ∷ bs) k i is e = omega (arith, unbound_above bs (k + 1) i is e)
unbound_above (false ∷ bs) k i is e = ground arith

one_unbound :
    (bs : List Bool) (k i j : ℕ)
    → unbound_from k bs ≡ i ∷ []
    → (get_elem? bs j ≡ some false) ↔ (k + j ≡ i)
unfolding unbound_from
one_unbound [] k i j e = cc
one_unbound (true ∷ bs) k i zero e =
    (λ h. cc, λ h. absurd (omega (arith, unbound_above bs (k + 1) i [] e)))
one_unbound (true ∷ bs) k i (suc j) e =
    let shift : k + 1 + j ≡ k + suc j = omega arith in rw shift at (one_unbound bs (k + 1) i j e)
one_unbound (false ∷ bs) k i zero e = (λ h. ground arith, λ h. refl)
one_unbound (false ∷ bs) k i (suc j) e =
    (λ h. absurd (none_unbound bs (k + 1) j (ground arith) h), λ h. absurd (ground arith))

only_one-eq-ok : (is : List ℕ) (i : ℕ) → only_one is ≡ ok i → is ≡ i ∷ []
unfolding only_one
only_one-eq-ok [] i e = cc
only_one-eq-ok (j ∷ []) i e = ground arith
only_one-eq-ok (j ∷ k ∷ is) i e = cc

-- The output that is found is the one whose flag is not set.
final_output-eq-ok :
    (b : Bindings) (i j : ℕ)
    → final_output b ≡ ok i
    → (get_elem? b.bound_outputs j ≡ some false) ↔ (j ≡ i)
unfolding final_output
final_output-eq-ok b i j e =
    let shift : 0 + j ≡ j = omega arith in
    rw shift at
      (one_unbound b.bound_outputs 0 i j (only_one-eq-ok (unbound_from 0 b.bound_outputs) i e))

-- No pair binds an output.
abbrev pub IsUnbound : ℕ → List (ℕ × ℕ) → Type 0
IsUnbound j = All (λ pair. pair.1 ≢ j)

set_same : (bs : List Bool) (i : ℕ) → get_elem? (set bs i true) i ≢ some false
set_same [] i h = cc
set_same (b ∷ bs) zero h = cc
set_same (b ∷ bs) (suc i) h = set_same bs i h

set_flag :
    (bs : List Bool) (i j : ℕ)
    → (get_elem? (set bs i true) j ≡ some false) ↔ ((i ≢ j) × (get_elem? bs j ≡ some false))
set_flag bs i j = (
  λ h.
      let apart : i ≢ j = λ same. set_same bs i (rw (← same) at h) in
      (apart, sym (get_elem?-set_ne bs i j true apart) ∙ h),
  λ (apart, h). get_elem?-set_ne bs i j true apart ∙ h,
)

from_raw-eq-ok : (raw total i : ℕ) → from_raw raw total ≡ ok i → i ≡ raw
unfolding from_raw valid guard_graph
from_raw-eq-ok raw total i e = ground arith

-- What holds of the bindings that a step makes.
record Gives (P : Bindings → Type 0) (r : Result GraphError Bindings) : Type 0 where
  of_ok : (c : Bindings) → r ≡ ok c → P c

Gives-bind {ℓ} :
    {A : Type ℓ} {P : Bindings → Type 0} (m : Result GraphError A)
    {f : A → Result GraphError Bindings}
    → ((a : A) → m ≡ ok a → Gives P (f a))
    → Gives P (m >>= f)
Gives-bind (ok a) h = h a refl
Gives-bind (err refused) h = record { of_ok = λ c e. cc }
Gives-bind out_of_fuel h = record { of_ok = λ c e. cc }

ok-Gives : {P : Bindings → Type 0} (b : Bindings) → P b → Gives P (ok b)
ok-Gives {P} b h = record { of_ok = λ c e. subst P (ok_inj e) h }

-- A pair that is bound sets the flag of its output, and no other.
bind-Gives :
    (b : Bindings) (input output : ℕ) (owners : StreamOwners)
    → Gives (λ c. c.bound_outputs ≡ set b.bound_outputs output true) (bind b input output owners)
unfolding bind
bind-Gives b input output owners = Gives-bind (from_raw input (length owners.inputs)) λ i _.
    Gives-bind (from_raw output (length owners.outputs)) λ o e.
      Gives-bind (valid (get_elem? b.bound_inputs i)) λ input_bound _.
        Gives-bind (valid (get_elem? b.bound_outputs o)) λ output_bound _.
          Gives-bind (guard_graph (not (input_bound || output_bound))) λ _ _.
            Gives-bind (valid (get_elem? owners.outputs o)) λ source _.
              Gives-bind (valid (get_elem? owners.inputs i)) λ target _.
                Gives-bind (guard_graph (not (source == target))) λ _ _.
                  Gives-bind (valid (get_elem? b.input_sources i)) λ _ _.
                    Gives-bind (valid (get_elem? b.edges source)) λ edges _.
                      Gives-bind (valid (get_elem? b.indegree target)) λ degree _. ok-Gives _ (
                        ap (λ n. set b.bound_outputs n true)
                          (from_raw-eq-ok output (length owners.outputs) o e))

bind_pairs_loop-IsUnbound :
    (pairs : List (ℕ × ℕ)) (owners : StreamOwners) (b c : Bindings) (j : ℕ)
    → bind_pairs_loop pairs owners b ≡ ok c
    → (get_elem? c.bound_outputs j ≡ some false)
      ↔ (IsUnbound j pairs × (get_elem? b.bound_outputs j ≡ some false))
unfolding bind_pairs_loop
bind_pairs_loop-IsUnbound [] owners b c j e = rw (ok_inj e) (λ h. (tt, h), λ (_, h). h)
bind_pairs_loop-IsUnbound ((input, output) ∷ pairs) owners b c j e =
    let (next, e₁, k₁) = >>=-eq-ok (bind b input output owners) _ e in
    let (into, back) = bind_pairs_loop-IsUnbound pairs owners next c j k₁ in
    let (apart, join) = set_flag b.bound_outputs output j in
    let same = ap (λ flags. get_elem? flags j) ((bind-Gives b input output owners).of_ok next e₁) in
    (
      λ h.
          let (rest, first) = into h in
          let (differ, kept) = apart (sym same ∙ first) in ((differ, rest), kept),
      λ ((differ, rest), kept). back (rest, same ∙ join (differ, kept)),
    )

replicate_flag : (n j : ℕ) → (get_elem? (replicate n false) j ≡ some false) ↔ (j < n)
replicate_flag zero j = (λ h. cc, λ h. absurd (omega arith))
replicate_flag (suc n) zero = (λ h. omega arith, λ h. refl)
replicate_flag (suc n) (suc j) =
    (λ h. omega (arith, (replicate_flag n j).0 h), λ h. (replicate_flag n j).1 (omega arith))

bind_all-IsUnbound :
    (pairs : List (ℕ × ℕ)) (owners : StreamOwners) (coder_count : ℕ) (c : Bindings) (j : ℕ)
    → bind_all pairs owners coder_count ≡ ok c
    → (get_elem? c.bound_outputs j ≡ some false) ↔ (IsUnbound j pairs × (j < length owners.outputs))
unfolding bind_all
bind_all-IsUnbound pairs owners coder_count c j e =
    let (expected, _, k₁) = >>=-eq-ok (valid (checked_sub (length owners.outputs) 1)) _ e in
    let (_, _, k₂) = >>=-eq-ok (guard_graph (length pairs == expected)) _ k₁ in
    let (into, back) = bind_pairs_loop-IsUnbound pairs owners _ c j k₂ in
    let (less, flag) = replicate_flag (length owners.outputs) j in
    (λ h. let (free, kept) = into h in (free, less kept), λ (free, h). back (free, flag h))

-- In the graph of a folder, the final output is the one output stream of its coders that no bind
-- pair of the folder binds.
pub graph-final :
    (folder : Folder) (g : FolderGraph) (j : ℕ)
    → graph folder ≡ ok g
    → (IsUnbound j folder.bind_pairs × (j < length g.output_owners)) ↔ (j ≡ g.final)
unfolding graph
graph-final folder g j e =
    let (owners, e₁, k₁) = >>=-eq-ok (from_coders folder.coders) _ e in
    let (b, e₂, k₂) = >>=-eq-ok (bind_all folder.bind_pairs owners (length folder.coders)) _ k₁ in
    let (final, e₃, k₃) = >>=-eq-ok (final_output b) _ k₂ in
    let (packed, e₄, k₄) = >>=-eq-ok (packed_inputs b folder.packed_indices) _ k₃ in
    let (order, e₅, k₅) = >>=-eq-ok (execution_order b.edges b.indegree) _ k₄ in
    let (into, back) = bind_all-IsUnbound folder.bind_pairs owners (length folder.coders) b j e₂ in
    let (only, one) = final_output-eq-ok b final j e₃ in
    let outputs = ap (λ r. length r.output_owners) (ok_inj k₅) in
    let found = ap (λ r. r.final) (ok_inj k₅) in
    (
      λ (free, h). only (back (free, omega (arith, outputs))) ∙ found,
      λ h. let (free, less) = into (one (h ∙ sym found)) in (free, omega (arith, outputs)),
    )
