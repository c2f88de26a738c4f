-- ===== src/OutputSizes/Laws.antt =====
-- src/codec/sizes.rs: the sizes of a complete table, and how sizes reconcile.
use mathlib.Core.Path.{subst}
use r7z.Prelude.{
  ℕ, ◌↔◌, ◌∙◌, Result, err, ok_inj, ◌<◌, ◌≡◌, refl, ap, sym, false, some, List, length, get_elem?,
  get_elem?-some, ok, ◌==◌, arith, Bool-cases, inl, inr, ==_iff,
}
use r7z.Folder.{Folder, total_out_streams}
use r7z.Folder.Graph.{FolderGraph}
use r7z.OutputSizes.{
  SizeError, parse_error, OutputSize, known, unknown, reconcile, CoderOutputSizes, contradicts,
  partial_sizes, complete_sizes, from_declared, get_size,
}

-- A size that is known allows itself only, and one that is not known allows all.
abbrev pub Allows : OutputSize → ℕ → Type 0
Allows (known a) n = n ≡ a
Allows unknown n = Unit {0}

allowed :
    (size c : OutputSize) (n : ℕ)
    → ◌≡◌ {A = Result SizeError OutputSize} (ok size) (ok c)
    → Allows c n
    → Allows size n
allowed size c n e h = subst (λ s. Allows s n) (sym (ok_inj e)) h

refused : {c : OutputSize} → ◌≡◌ {A = Result SizeError OutputSize} (err parse_error) (ok c) → ⊥
refused e = cc

known_both :
    (a b n : ℕ) (c : OutputSize)
    → reconcile (known a) (known b) ≡ ok c
    → Allows c n
    → (n ≡ a) × (n ≡ b)
unfolding reconcile
known_both a b n c e h = elim (Bool-cases (a == b)) [
  | inl same ↦
      let at_a = allowed (known a) c n (rw same at e) h in (at_a, at_a ∙ (==_iff a b).0 same)
  | inr other ↦ absurd (refused (rw other at e))
]

-- Two sizes reconcile to a size that allows a number exactly when both of them allow it, so that
-- sizes which allow no number together are refused.
pub reconcile-Allows :
    (a b : OutputSize) (n : ℕ)
    → ((c : OutputSize) × (reconcile a b ≡ ok c) × Allows c n) ↔ (Allows a n × Allows b n)
unfolding reconcile
reconcile-Allows (known a) (known b) n = (
  λ (c, e, h). known_both a b n c e h,
  λ (x, y). (known a, rw ((==_iff a b).1 (sym x ∙ y)) refl, x),
)
reconcile-Allows (known a) unknown n =
    (λ (c, e, h). (allowed (known a) c n e h, tt), λ (x, y). (known a, refl, x))
reconcile-Allows unknown (known b) n =
    (λ (c, e, h). (tt, allowed (known b) c n e h), λ (x, y). (known b, refl, y))
reconcile-Allows unknown unknown n = (λ h. (tt, tt), λ h. (unknown, refl, tt))

complete_sizes-eq-ok :
    (folder : Folder) (graph : FolderGraph) (final_size : ℕ) (declared : List ℕ)
    (sizes : CoderOutputSizes)
    → complete_sizes folder graph final_size declared ≡ ok sizes
    → (length declared ≡ total_out_streams folder)
      × (contradicts final_size (get_elem? declared graph.final) ≡ false)
      × (sizes ≡ record { declared = declared; final_index = graph.final; final_size = final_size })
unfolding complete_sizes partial_sizes
complete_sizes-eq-ok folder graph final_size declared sizes e = ground arith

agrees : (v final_size : ℕ) → contradicts final_size (some v) ≡ false → v ≡ final_size
unfolding contradicts
agrees v final_size h = ground arith

-- If a table of sizes is accepted as complete, every output stream of the folder has the size that the
-- table declares for it, the final output included.
pub get_size-complete_sizes :
    (folder : Folder) (graph : FolderGraph) (final_size : ℕ) (declared : List ℕ)
    (sizes : CoderOutputSizes) (index : ℕ)
    → complete_sizes folder graph final_size declared ≡ ok sizes
    → index < total_out_streams folder
    → (size : ℕ) × (get_elem? declared index ≡ some size) × (get_size sizes index ≡ known size)
unfolding get_size from_declared
get_size-complete_sizes folder graph final_size declared sizes index e h =
    let (long, agree, same) = complete_sizes-eq-ok folder graph final_size declared sizes e in
    let (v, found) = get_elem?-some declared index (omega (arith, long)) in
    (
      v,
      found,
      rw same (elim (Bool-cases (index == graph.final)) [
        | inl last ↦
            let at_final : index ≡ graph.final = (==_iff index graph.final).0 last in
            let final_found : get_elem? declared graph.final ≡ some v = rw at_final at found in
            rw last (ap known (sym (agrees v final_size (rw final_found at agree))))
        | inr other ↦ rw (other, found) refl
      ]),
    )
