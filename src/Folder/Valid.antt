-- ===== src/Folder/Valid.antt =====
-- src/folder.rs: what `Folder::parse` checks of the folders that it gives.
use r7z.Prelude.{
  ℕ, zero, suc, ◌+◌, ◌<◌, ◌≤◌, ◌≡◌, ◌∙◌, List, [], ◌∷◌, length, All, ok, >>=-eq-ok, ◌==◌, arith,
  Bool-cases, inl, inr,
}
use mathlib.Core.Path.{subst}
use r7z.Nom.{Bytes, IResult}
use r7z.Nom.Repeat.{repeat, repeat-length}
use r7z.Packages.{Packages}
use r7z.Parsers.{sevenzip_varuint64_decode}
use r7z.CoderInfo
use r7z.CoderInfo.{CoderInfo}
use r7z.Folder
use r7z.Folder.{
  Folder, parse_coders, parse_bind_pair, parse_packed_index, parse_packed_indices,
  total_out_streams, sum_outputs,
}
use r7z.Folder.Counts.{
  StreamCounts, no_streams, max_folder_streams, checked_coder_count, checked_stream_index,
  add_coder, layout,
}
use r7z.Folder.Scan.{add_coder-eq-ok, parse_coders-totals}

abbrev pub sum_inputs : List CoderInfo → ℕ
sum_inputs [] = 0
sum_inputs (c ∷ cs) = c.num_in_streams + sum_inputs cs

-- Every bind pair and every packed index names a stream of the folder, and all outputs but one are
-- bound.
unfoldable pub IsValid : Folder → Type 0
IsValid f =
    All (λ (p : ℕ × ℕ). (p.0 < sum_inputs f.coders) × (p.1 < total_out_streams f)) f.bind_pairs
    × All (λ (i : ℕ). i < sum_inputs f.coders) f.packed_indices
    × (length f.bind_pairs + 1 ≡ total_out_streams f)
    × (total_out_streams f ≤ max_folder_streams)

value_of {ℓ} :
    {A : Type ℓ} (i j : Bytes) (a b : A) → ◌≡◌ {A = IResult A} (ok (i, a)) (ok (j, b)) → a ≡ b
value_of i j a b e = cc

repeat-All {ℓ} :
    {A : Type ℓ} (p : Bytes → IResult A) (P : A → Type 0) (n : ℕ) (input rest : Bytes) (vs : List A)
    → ((i r : Bytes) (v : A) → p i ≡ ok (r, v) → P v)
    → repeat p n input ≡ ok (rest, vs)
    → All P vs
unfolding repeat
repeat-All p P zero input rest [] good e = tt
repeat-All p P zero input rest (v ∷ vs) good e = ground arith
repeat-All p P (suc n) input rest vs good e =
    let ((i₁, v), e₁, k₁) = >>=-eq-ok (p input) _ e in
    let ((i₂, ws), e₂, k₂) = >>=-eq-ok (repeat p n i₁) _ k₁ in
    let same : v ∷ ws ≡ vs = cc k₂ in
    subst (All P) same (good input i₁ v e₁, repeat-All p P n i₁ i₂ ws good e₂)

bind_pair_in_range :
    (counts : StreamCounts) (i r : Bytes) (v : ℕ × ℕ)
    → parse_bind_pair counts i ≡ ok (r, v)
    → (v.0 < counts.inputs) × (v.1 < counts.outputs)
unfolding parse_bind_pair checked_stream_index
bind_pair_in_range counts i r v e =
    let ((i₁, a), e₁, k₁) = >>=-eq-ok (sevenzip_varuint64_decode i) _ e in
    let (_, e₂, k₂) = >>=-eq-ok (checked_stream_index i₁ a counts.inputs) _ k₁ in
    let ((i₃, b), e₃, k₃) = >>=-eq-ok (sevenzip_varuint64_decode i₁) _ k₂ in
    let (_, e₄, k₄) = >>=-eq-ok (checked_stream_index i₃ b counts.outputs) _ k₃ in
    ground (arith, e₂, e₄, k₄)

packed_index_in_range :
    (counts : StreamCounts) (i r : Bytes) (v : ℕ)
    → parse_packed_index counts i ≡ ok (r, v)
    → v < counts.inputs
unfolding parse_packed_index checked_stream_index
packed_index_in_range counts i r v e =
    let ((i₁, a), e₁, k₁) = >>=-eq-ok (sevenzip_varuint64_decode i) _ e in
    let (_, e₂, k₂) = >>=-eq-ok (checked_stream_index i₁ a counts.inputs) _ k₁ in
    ground (arith, e₂, k₂)

packed_indices_in_range :
    (counts : StreamCounts) (n : ℕ) (input rest : Bytes) (vs : List ℕ)
    → parse_packed_indices counts n input ≡ ok (rest, vs)
    → All (λ (i : ℕ). i < counts.inputs) vs
unfolding parse_packed_indices
packed_indices_in_range counts n input rest vs e = elim (Bool-cases (n == 1)) [
  | inl one ↦
      let none_left : [] ≡ vs = cc (rw one at e) in
      subst (All (λ (i : ℕ). i < counts.inputs)) none_left tt
  | inr many ↦
      repeat-All (parse_packed_index counts) (λ (i : ℕ). i < counts.inputs) n input rest vs
        (packed_index_in_range counts) (rw many at e)
]

-- The checks against the totals, with the totals as the sums over the coders.
checks-IsValid :
    (cs : List CoderInfo) (bound : List (ℕ × ℕ)) (found : List ℕ) (ins outs : ℕ)
    → ins ≡ sum_inputs cs
    → outs ≡ sum_outputs cs
    → All (λ (p : ℕ × ℕ). (p.0 < ins) × (p.1 < outs)) bound
    → All (λ (i : ℕ). i < ins) found
    → length bound + 1 ≡ outs
    → outs ≤ max_folder_streams
    → IsValid (record { coders = cs; bind_pairs = bound; packed_indices = found })
unfolding IsValid total_out_streams
checks-IsValid cs bound found ins outs ei eo pairs indices count limit = (
  subst (λ (t : ℕ). All (λ (p : ℕ × ℕ). (p.0 < t) × (p.1 < sum_outputs cs)) bound) ei
      (subst (λ (t : ℕ). All (λ (p : ℕ × ℕ). (p.0 < ins) × (p.1 < t)) bound) eo pairs),
  subst (λ (t : ℕ). All (λ (i : ℕ). i < t) found) ei indices,
  count ∙ eo,
  omega (arith, limit, eo),
)

module _ ⦃pk : Packages⦄ where
  parse_coders-inputs :
      (n : ℕ) (counts last : StreamCounts) (input rest : Bytes) (cs : List CoderInfo)
      → parse_coders n counts input ≡ ok (rest, (cs, last))
      → last.inputs ≡ counts.inputs + sum_inputs cs
  unfolding parse_coders
  parse_coders-inputs zero counts last input rest cs e = ground arith
  parse_coders-inputs (suc n) counts last input rest cs e =
      let ((i₁, c), e₁, k₁) = >>=-eq-ok (CoderInfo.parse input) _ e in
      let (next, e₂, k₂) =
        >>=-eq-ok (add_coder counts i₁ c.num_in_streams c.num_out_streams) _ k₁ in
      let ((i₃, (ds, end)), e₃, k₃) = >>=-eq-ok (parse_coders n next i₁) _ k₂ in
      ground (
        arith,
        add_coder-eq-ok counts i₁ c.num_in_streams c.num_out_streams next e₂,
        parse_coders-inputs n next end i₁ i₃ ds,
        e₃,
        k₃,
      )

  -- In a folder that is parsed, every bind pair and every packed index names a stream of its coders,
  -- the bind pairs are one fewer than the output streams, and these are 16384 at most.
  pub parse-IsValid :
      (input rest : Bytes) (f : Folder) → Folder.parse input ≡ ok (rest, f) → IsValid f
  unfolding Folder.parse IsValid total_out_streams layout
  parse-IsValid input rest f e =
      let ((i₁, n), e₁, k₁) = >>=-eq-ok (sevenzip_varuint64_decode input) _ e in
      let (m, e₂, k₂) = >>=-eq-ok (checked_coder_count i₁ n) _ k₁ in
      let ((i₃, (cs, counts)), e₃, k₃) = >>=-eq-ok (parse_coders m no_streams i₁) _ k₂ in
      let ((pairs, packed), e₄, k₄) = >>=-eq-ok (layout counts i₃) _ k₃ in
      let ((i₅, bound), e₅, k₅) = >>=-eq-ok (repeat (parse_bind_pair counts) pairs i₃) _ k₄ in
      let ((i₆, found), e₆, k₆) = >>=-eq-ok (parse_packed_indices counts packed i₅) _ k₅ in
      let (outs, limit) = parse_coders-totals m no_streams counts i₁ i₃ cs (omega arith) e₃ in
      let same : record { coders = cs; bind_pairs = bound; packed_indices = found } ≡ f =
        value_of i₆ rest _ f k₆ in
      subst IsValid same (
        checks-IsValid cs bound found counts.inputs counts.outputs
          (omega (arith, parse_coders-inputs m no_streams counts i₁ i₃ cs e₃)) (omega (arith, outs))
          (repeat-All (parse_bind_pair counts)
            (λ (p : ℕ × ℕ). (p.0 < counts.inputs) × (p.1 < counts.outputs)) pairs i₃ i₅ bound
            (bind_pair_in_range counts) e₅)
          (packed_indices_in_range counts packed i₅ i₆ found e₆)
          (ground (arith, e₄, repeat-length (parse_bind_pair counts) pairs i₃ i₅ bound e₅)) limit)
