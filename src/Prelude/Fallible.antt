-- ===== src/Prelude/Fallible.antt =====
-- Rust's `Result`, with one more outcome for a loop whose fuel runs out.
use mathlib.Core.Path.{◌≡◌, refl}
use mathlib.Core.Option.{Option, none, some}
use mathlib.Core.Logic.{◌⊎◌, inl, inr}

-- `out_of_fuel` is no Rust value; theorems show that it is not reached.
pub data Result {ℓ κ} (E : Type κ) (A : Type ℓ) : Type (ℓ ⊔ κ) where
  ok : A → Result E A
  err : E → Result E A
  out_of_fuel : Result E A

module _ {ℓ κ μ} {E : Type κ} {A : Type ℓ} {B : Type μ} where
  infixl 5 ◌>>=◌ ◌>>◌
  -- The `?` operator.
  abbrev pub ◌>>=◌ : Result E A → (A → Result E B) → Result E B
  out_of_fuel >>= next = out_of_fuel
  err refused >>= next = err refused
  ok v >>= next = next v

  abbrev pub ◌>>◌ : Result E A → Result E B → Result E B
  m >> k = m >>= λ _. k

module _ {ℓ κ} {E : Type κ} {A : Type ℓ} where
  -- `Option::ok_or`.
  abbrev pub ok_or : Option A → E → Result E A
  ok_or none e = err e
  ok_or (some a) e = ok a

  -- `Result::ok`.
  abbrev pub to_option : Result E A → Option A
  to_option (ok a) = some a
  to_option (err e) = none
  to_option out_of_fuel = none

  pub Result-cases :
      (r : Result E A) → ((a : A) × (r ≡ ok a)) ⊎ (((e : E) × (r ≡ err e)) ⊎ (r ≡ out_of_fuel))
  Result-cases (ok a) = inl (a, refl)
  Result-cases (err e) = inr (inl (e, refl))
  Result-cases out_of_fuel = inr (inr refl)

  pub ok_inj : {p q : A} → ◌≡◌ {A = Result E A} (ok p) (ok q) → p ≡ q
  ok_inj e = cc

  -- A chain that succeeds went through a value.
  pub >>=-eq-ok {μ} :
      {B : Type μ} (step : Result E A) (next : A → Result E B) {r : B}
      → (step >>= next) ≡ ok r
      → (v : A) × (step ≡ ok v) × (next v ≡ ok r)
  >>=-eq-ok out_of_fuel next given = cc
  >>=-eq-ok (err refused) next given = cc
  >>=-eq-ok (ok v) next given = (v, refl, given)

abbrev pub map_err {ℓ κ μ} :
    {E : Type κ} {F : Type μ} {A : Type ℓ} → (E → F) → Result E A → Result F A
map_err f (ok a) = ok a
map_err f (err e) = err (f e)
map_err f out_of_fuel = out_of_fuel

module _ {ℓ κ μ ν} {E : Type κ} {A : Type ℓ} {B : Type μ} {C : Type ν} where
  pub >>=-assoc :
      (m : Result E A) (f : A → Result E B) (g : B → Result E C)
      → ((m >>= f) >>= g) ≡ (m >>= λ a. f a >>= g)
  >>=-assoc (ok a) f g = refl
  >>=-assoc (err e) f g = refl
  >>=-assoc out_of_fuel f g = refl

module _ {ℓ κ μ} {E : Type κ} {A : Type ℓ} {B : Type μ} where
  pub >>=-cong :
      (m : Result E A) (f g : A → Result E B) → ((a : A) → f a ≡ g a) → (m >>= f) ≡ (m >>= g)
  >>=-cong (ok a) f g h = h a
  >>=-cong (err e) f g h = refl
  >>=-cong out_of_fuel f g h = refl

  -- Where only the values that `m` gives matter.
  pub >>=-cong_ok :
      (m : Result E A) (f g : A → Result E B)
      → ((a : A) → m ≡ ok a → f a ≡ g a)
      → (m >>= f) ≡ (m >>= g)
  >>=-cong_ok (ok a) f g h = h a refl
  >>=-cong_ok (err e) f g h = refl
  >>=-cong_ok out_of_fuel f g h = refl

  -- Where the errors may differ.
  pub to_option-cong :
      (m : Result E A) (f g : A → Result E B)
      → ((a : A) → m ≡ ok a → to_option (f a) ≡ to_option (g a))
      → to_option (m >>= f) ≡ to_option (m >>= g)
  to_option-cong (ok a) f g h = h a refl
  to_option-cong (err e) f g h = refl
  to_option-cong out_of_fuel f g h = refl
