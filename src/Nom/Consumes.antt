-- ===== src/Nom/Consumes.antt =====
-- Runs that end: a parser returns, with a value or an error, and what it leaves is no longer than a
-- bound. The rules follow the shape of the parsers.
use r7z.Prelude.{
  ℕ, zero, suc, ◌≤◌, ◌≡◌, ◌≢◌, ◌⊎◌, inl, inr, refl, Bool, true, false, Option, none, some, length,
  Result, ok, err, out_of_fuel, ◌>>=◌, ok_or, map_err, if◌then◌else◌, arith,
}
use r7z.Nom.{Bytes, IResult, ParseError}
use r7z.Nom.Repeat.{repeat, skip_repeat}

-- The run returns, and leaves at most `n` bytes.
pub data Consumes {ℓ} {A : Type ℓ} (n : ℕ) : IResult A → Type ℓ where
  leaves : {rest : Bytes} {a : A} → length rest ≤ n → Consumes n (ok (rest, a))
  fails : {e : ParseError} → Consumes n (err e)

-- A step that reads nothing, and returns.
pub data Returns {ℓ κ} {E : Type κ} {A : Type ℓ} : Result E A → Type (ℓ ⊔ κ) where
  gives : {a : A} → Returns (ok a)
  refuses : {e : E} → Returns (err e)

module _ {ℓ} {A : Type ℓ} where
  pub Consumes-ne-out_of_fuel : {n : ℕ} {r : IResult A} → Consumes n r → r ≢ out_of_fuel
  Consumes-ne-out_of_fuel (leaves h) = λ e. cc
  Consumes-ne-out_of_fuel fails = λ e. cc

  pub Consumes-cases :
      {n : ℕ} {r : IResult A}
      → Consumes n r
      → ((p : Bytes × A) × (r ≡ ok p) × (length p.0 ≤ n)) ⊎ ((e : ParseError) × (r ≡ err e))
  Consumes-cases (leaves {rest} {a} h) = inl ((rest, a), refl, h)
  Consumes-cases (fails {e}) = inr (e, refl)

  pub Consumes-weaken : {m n : ℕ} {r : IResult A} → Consumes m r → m ≤ n → Consumes n r
  Consumes-weaken (leaves h) k = leaves (omega arith)
  Consumes-weaken fails k = fails

  pub Consumes-eq-ok :
      {n : ℕ} {r : IResult A} {rest : Bytes} {a : A}
      → Consumes n r
      → r ≡ ok (rest, a)
      → length rest ≤ n
  Consumes-eq-ok (leaves h) e = ground arith
  Consumes-eq-ok fails e = cc

  pub Consumes-if :
      {n : ℕ} (b : Bool) {r q : IResult A}
      → Consumes n r
      → Consumes n q
      → Consumes n (if b then r else q)
  Consumes-if true h k = h
  Consumes-if false h k = k

  pub Consumes-bind {κ} :
      {B : Type κ} {m n : ℕ} {r : IResult A} {f : Bytes × A → IResult B}
      → Consumes m r
      → ((p : Bytes × A) → length p.0 ≤ m → Consumes n (f p))
      → Consumes n (r >>= f)
  Consumes-bind (leaves {rest} {a} h) k = k (rest, a) h
  Consumes-bind fails k = fails

pub Consumes-step {ℓ κ} :
    {A : Type ℓ} {B : Type κ} {n : ℕ} {r : Result ParseError A} {f : A → IResult B}
    → Returns r
    → ((a : A) → Consumes n (f a))
    → Consumes n (r >>= f)
Consumes-step (gives {a}) k = k a
Consumes-step refuses k = fails

pub Consumes-step_eq {ℓ κ} :
    {A : Type ℓ} {B : Type κ} {n : ℕ} {r : Result ParseError A} {f : A → IResult B}
    → Returns r
    → ((a : A) → r ≡ ok a → Consumes n (f a))
    → Consumes n (r >>= f)
Consumes-step_eq (gives {a}) k = k a refl
Consumes-step_eq refuses k = fails

module _ {ℓ κ} {E : Type κ} {A : Type ℓ} where
  pub Returns-of_ne : (r : Result E A) → r ≢ out_of_fuel → Returns r
  Returns-of_ne (ok a) h = gives
  Returns-of_ne (err e) h = refuses
  Returns-of_ne out_of_fuel h = absurd (h refl)

  pub Returns-ok_or : (o : Option A) (e : E) → Returns (ok_or o e)
  Returns-ok_or none e = refuses
  Returns-ok_or (some a) e = gives

  pub Returns-if :
      (b : Bool) {r q : Result E A} → Returns r → Returns q → Returns (if b then r else q)
  Returns-if true h k = h
  Returns-if false h k = k

  pub Returns-map_err {μ} :
      {F : Type μ} (f : E → F) {r : Result E A} → Returns r → Returns (map_err f r)
  Returns-map_err f gives = gives
  Returns-map_err f refuses = refuses

  pub Returns-bind {μ} :
      {B : Type μ} {r : Result E A} {f : A → Result E B}
      → Returns r
      → ((a : A) → Returns (f a))
      → Returns (r >>= f)
  Returns-bind (gives {a}) k = k a
  Returns-bind refuses k = refuses

-- Where the rest of the chain may use the value that was given.
pub Returns-step {ℓ κ μ} :
    {E : Type κ} {A : Type ℓ} {B : Type μ} {r : Result E A} {f : A → Result E B}
    → Returns r
    → ((a : A) → r ≡ ok a → Returns (f a))
    → Returns (r >>= f)
Returns-step (gives {a}) k = k a refl
Returns-step refuses k = refuses

pub Returns-ne-out_of_fuel {ℓ κ} :
    {E : Type κ} {A : Type ℓ} {r : Result E A} → Returns r → r ≢ out_of_fuel
Returns-ne-out_of_fuel gives e = cc
Returns-ne-out_of_fuel refuses e = cc

pub Consumes-Returns {ℓ} : {A : Type ℓ} {n : ℕ} {r : IResult A} → Consumes n r → Returns r
Consumes-Returns (leaves h) = gives
Consumes-Returns fails = refuses

module _ {ℓ} {A : Type ℓ} (p : Bytes → IResult A)
    (good : (input : Bytes) → Consumes (length input) (p input)) where
  pub repeat-Consumes : (n : ℕ) (input : Bytes) → Consumes (length input) (repeat p n input)
  unfolding repeat
  repeat-Consumes zero input = leaves (omega arith)
  repeat-Consumes (suc n) input =
      Consumes-bind (good input)
        λ (i, v) h. Consumes-bind (repeat-Consumes n i) λ (j, vs) k. leaves (omega arith)

  pub skip_repeat-Consumes :
      (n : ℕ) (input : Bytes) → Consumes (length input) (skip_repeat p n input)
  unfolding skip_repeat
  skip_repeat-Consumes zero input = leaves (omega arith)
  skip_repeat-Consumes (suc n) input =
      Consumes-bind (good input) λ (i, v) h. Consumes-weaken (skip_repeat-Consumes n i) h
