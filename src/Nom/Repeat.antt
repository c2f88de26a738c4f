-- ===== src/Nom/Repeat.antt =====
-- The counted loops of the parsers: `for _ in 0..count { .. }` with a push, and without.
use r7z.Prelude.{
  ℕ, zero, suc, ◌≡◌, refl, List, [], ◌∷◌, ok, ◌>>=◌, >>=-assoc, >>=-eq-ok, length, arith,
}
use r7z.Nom.{Bytes, IResult, map_value}

module _ {ℓ} {A : Type ℓ} (p : Bytes → IResult A) where
  unfoldable pub repeat : ℕ → Bytes → IResult (List A)
  repeat zero input = ok (input, [])
  repeat (suc count) input = do
    (input, value) ← p input
    (input, values) ← repeat count input
    ok (input, value ∷ values)

  -- The values are dropped.
  unfoldable pub skip_repeat : ℕ → Bytes → IResult (Unit {0})
  skip_repeat zero input = ok (input, tt)
  skip_repeat (suc count) input = do (input, _) ← p input; skip_repeat count input

  pub skip_repeat-repeat :
      (n : ℕ) (input : Bytes) → skip_repeat n input ≡ map_value (λ _. tt) (repeat n input)
  unfolding repeat skip_repeat
  skip_repeat-repeat zero input = refl
  skip_repeat-repeat (suc n) input = simp (>>=-assoc, skip_repeat-repeat n)

  pub repeat-length :
      (n : ℕ) (input rest : Bytes) (vs : List A) → repeat n input ≡ ok (rest, vs) → length vs ≡ n
  unfolding repeat
  repeat-length zero input rest vs e = ground arith
  repeat-length (suc n) input rest vs e =
      let ((i₁, v), e₁, k₁) = >>=-eq-ok (p input) _ e in
      let ((i₂, ws), e₂, k₂) = >>=-eq-ok (repeat n i₁) _ k₁ in
      ground (arith, repeat-length n i₁ i₂ ws e₂, k₂)
