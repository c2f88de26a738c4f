-- ===== src/Packages/Laws.antt =====
-- What follows from the laws of the packages, in the form in which parsers are run on written bytes.
use r7z.Prelude.{
  ℕ, ◌≡◌, ◌∷◌, ◌++◌, length, length-append, take-append, drop-append, ok, arith, le→leb,
  take-append-drop, length-take,
}
use r7z.Nom.{Bytes}
use r7z.Packages.{Packages}

module _ ⦃pk : Packages⦄ where
  -- As many bytes as stand in front.
  pub take_complete-append :
      (xs rest : Bytes) → pk.take_complete (length xs) (xs ++ rest) ≡ ok (rest, xs)
  take_complete-append xs rest = rw (pk.take_complete_lem (length xs) (xs ++ rest)) (
      rw (
        le→leb (length xs) (length (xs ++ rest)) (omega (arith, length-append xs rest)),
        take-append xs rest,
        drop-append xs rest,
      ))

  pub le_u8_append : (b : ℕ) (rest : Bytes) → pk.le_u8 (b ∷ rest) ≡ ok (rest, b)
  le_u8_append = pk.le_u8-cons

  -- A `take` that succeeds splits its input.
  pub take_complete-eq-ok :
      (n : ℕ) (input rest xs : Bytes)
      → pk.take_complete n input ≡ ok (rest, xs)
      → (input ≡ xs ++ rest) × (length xs ≡ n)
  take_complete-eq-ok n input rest xs e =
      ground (arith, pk.take_complete_lem n input, take-append-drop n input, length-take n input, e)
