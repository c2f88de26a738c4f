-- ===== src/Nom/Tracks.antt =====
-- A second parser that follows a first one: where the first gives a value, the second gives a related
-- one and leaves the same bytes.
use r7z.Prelude.{
  ◌≡◌, refl, ap, Bool, true, false, Result, ok, err, out_of_fuel, ◌>>=◌, if◌then◌else◌,
}
use mathlib.Core.Path.{subst}
use r7z.Nom.{Bytes, IResult, ParseError}

pub data Tracks {ℓ κ μ} {A : Type ℓ} {B : Type κ} (R : A → B → Type μ)
    : IResult A → IResult B → Type (ℓ ⊔ κ ⊔ μ) where
  both : {rest : Bytes} {a : A} {b : B} → R a b → Tracks R (ok (rest, a)) (ok (rest, b))
  stops : {e : ParseError} {q : IResult B} → Tracks R (err e) q
  exhausted : {q : IResult B} → Tracks R out_of_fuel q

pair_of {ℓ} :
    {A : Type ℓ} (i rest : Bytes) (a c : A)
    → ◌≡◌ {A = IResult A} (ok (i, a)) (ok (rest, c))
    → (i ≡ rest) × (a ≡ c)
pair_of i rest a c e = (cc, cc)

module _ {ℓ κ μ} {A : Type ℓ} {B : Type κ} {R : A → B → Type μ} where
  -- A step that both take.
  pub Tracks-same {ν} :
      {C : Type ν} (m : Result ParseError C) {f : C → IResult A} {g : C → IResult B}
      → ((c : C) → m ≡ ok c → Tracks R (f c) (g c))
      → Tracks R (m >>= f) (m >>= g)
  Tracks-same (ok c) h = h c refl
  Tracks-same (err e) h = stops
  Tracks-same out_of_fuel h = exhausted

  -- A step that the first alone takes.
  pub Tracks-first {ν} :
      {C : Type ν} (m : Result ParseError C) {f : C → IResult A} {q : IResult B}
      → ((c : C) → m ≡ ok c → Tracks R (f c) q)
      → Tracks R (m >>= f) q
  Tracks-first (ok c) h = h c refl
  Tracks-first (err e) h = stops
  Tracks-first out_of_fuel h = exhausted

  -- A step in which the second follows the first.
  pub Tracks-step {ν ξ ο} :
      {C : Type ν} {D : Type ξ} {P : C → D → Type ο} {m : IResult C} {n : IResult D}
      (f : Bytes × C → IResult A) (g : Bytes × D → IResult B)
      → Tracks P m n
      → ((rest : Bytes) (c : C) (d : D) → P c d → Tracks R (f (rest, c)) (g (rest, d)))
      → Tracks R (m >>= f) (n >>= g)
  Tracks-step f g (both {rest = i} {a = c} {b = d} p) h = h i c d p
  Tracks-step f g stops h = stops
  Tracks-step f g exhausted h = exhausted

  pub Tracks-if :
      (b : Bool) {r s : IResult A} {q t : IResult B}
      → Tracks R r q
      → Tracks R s t
      → Tracks R (if b then r else s) (if b then q else t)
  Tracks-if true h k = h
  Tracks-if false h k = k

  pub Tracks-eq-ok :
      {r : IResult A} {q : IResult B} {rest : Bytes} {a : A}
      → Tracks R r q
      → r ≡ ok (rest, a)
      → (b : B) × (q ≡ ok (rest, b)) × R a b
  Tracks-eq-ok {rest = rest} {a = a} (both {rest = i} {a = c} {b = b} p) e =
      let (left, same) = pair_of i rest c a e in
      (b, ap (λ t. ok (t, b)) left, subst (λ t. R t b) same p)
  Tracks-eq-ok stops e = cc
  Tracks-eq-ok exhausted e = cc
