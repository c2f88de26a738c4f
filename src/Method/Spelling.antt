-- ===== src/Method/Spelling.antt =====
-- src/method.rs: the spellings of a name that `method_from_name` looks up.
use mathlib.Core.Path.{subst}
use mathlib.Core.Option.{some-injective}
use r7z.Prelude.{
  ℕ, ◌+◌, ◌≤◌, ◌≡◌, ◌↔◌, refl, sym, ap, ◌∙◌, ◌⊎◌, inl, inr, true, false, Bool-cases, Option,
  Option-cases, some, none, leb, ◌&&◌, [], ◌∷◌, arith,
}
use r7z.Nom.{Bytes}
use r7z.Method.{
  is_separator, to_ascii_lowercase, normalized, eq_bytes, find_info, method_from_name, info_of,
}
use r7z.Method.Registry.{SevenZMethod, MethodInfo, method_registry}
use r7z.Method.Laws.{find_info_lem, rows_IsOwn, eq_bytes_sound, IsRegistered, info_of-IsRegistered}

-- `-`, `_` and the space.
abbrev pub Separates : ℕ → Type 0
Separates b = (b ≡ 45) ⊎ ((b ≡ 95) ⊎ (b ≡ 32))

-- `A` to `Z`.
abbrev pub IsUpper : ℕ → Type 0
IsUpper b = (65 ≤ b) × (b ≤ 90)

-- A byte, or an ASCII letter in either case.
abbrev pub SameLetter : ℕ → ℕ → Type 0
SameLetter b c = (b ≡ c) ⊎ ((IsUpper b × (c ≡ b + 32)) ⊎ (IsUpper c × (b ≡ c + 32)))

-- Two spellings of one name.
pub data Spells : Bytes → Bytes → Type 0 where
  ends : Spells [] []
  letter :
      {b c : ℕ} {name other : Bytes}
      → SameLetter b c
      → Spells name other
      → Spells (b ∷ name) (c ∷ other)
  skip : {b : ℕ} {name other : Bytes} → Separates b → Spells name other → Spells (b ∷ name) other
  skip_other :
      {c : ℕ} {name other : Bytes} → Separates c → Spells name other → Spells name (c ∷ other)

Separates-sound : (b : ℕ) → is_separator b ≡ true → Separates b
Separates-sound b h = ground arith

Separates-found : (b : ℕ) → Separates b → is_separator b ≡ true
Separates-found b h = ground arith

letter_kept :
    (b c : ℕ)
    → SameLetter b c
    → (is_separator b ≡ is_separator c) × (to_ascii_lowercase b ≡ to_ascii_lowercase c)
letter_kept b c h = ground arith

letter_sound : (b c : ℕ) → to_ascii_lowercase b ≡ to_ascii_lowercase c → SameLetter b c
letter_sound b c h = elim (Bool-cases (leb 65 b && leb b 90)) [
  | inl upper ↦ ground arith
  | inr other ↦ ground arith
]

normalized-letter :
    (b c : ℕ) (name other : Bytes)
    → SameLetter b c
    → normalized name ≡ normalized other
    → normalized (b ∷ name) ≡ normalized (c ∷ other)
unfolding normalized
normalized-letter b c name other h e = rw ((letter_kept b c h).0, (letter_kept b c h).1, e) refl

normalized-skip :
    (b : ℕ) (name : Bytes) → is_separator b ≡ true → normalized (b ∷ name) ≡ normalized name
unfolding normalized
normalized-skip b name h = rw h refl

normalized-kept :
    (b : ℕ) (name : Bytes)
    → is_separator b ≡ false
    → normalized (b ∷ name) ≡ to_ascii_lowercase b ∷ normalized name
unfolding normalized
normalized-kept b name h = rw h refl

Spells-normalized : {name other : Bytes} → Spells name other → normalized name ≡ normalized other
Spells-normalized ends = refl
Spells-normalized (letter {b} {c} {name} {other} h s) =
    normalized-letter b c name other h (Spells-normalized s)
Spells-normalized (skip {b} {name} h s) =
    normalized-skip b name (Separates-found b h) ∙ Spells-normalized s
Spells-normalized (skip_other {c} {name} {other} h s) =
    Spells-normalized s ∙ sym (normalized-skip c other (Separates-found c h))

cons_parts : {a b : ℕ} {xs ys : Bytes} → (a ∷ xs) ≡ (b ∷ ys) → (a ≡ b) × (xs ≡ ys)
cons_parts e = (cc, cc)

none-ne-some : {m : SevenZMethod} → ◌≡◌ {A = Option SevenZMethod} none (some m) → ⊥
none-ne-some e = cc

not_cons : {a : ℕ} {xs : Bytes} → (a ∷ xs) ≡ [] → ⊥
not_cons e = cc

-- A byte that is kept, against what the other name begins with.
kept-Spells :
    (b : ℕ) (name other : Bytes)
    → ((rest : Bytes) → normalized name ≡ normalized rest → Spells name rest)
    → to_ascii_lowercase b ∷ normalized name ≡ normalized other
    → Spells (b ∷ name) other
unfolding normalized
kept-Spells b name [] ih e = absurd (not_cons e)
kept-Spells b name (c ∷ other) ih e = elim (Bool-cases (is_separator c)) [
  | inl sep ↦
      skip_other (Separates-sound c sep)
        (kept-Spells b name other ih (e ∙ normalized-skip c other sep))
  | inr kept ↦
      let (same, rest) = cons_parts (e ∙ normalized-kept c other kept) in
      letter (letter_sound b c same) (ih other rest)
]

normalized-Spells : (name other : Bytes) → normalized name ≡ normalized other → Spells name other
unfolding normalized
normalized-Spells [] [] e = ends
normalized-Spells [] (c ∷ other) e = elim (Bool-cases (is_separator c)) [
  | inl sep ↦
      skip_other (Separates-sound c sep)
        (normalized-Spells [] other (e ∙ normalized-skip c other sep))
  | inr kept ↦ absurd (not_cons (sym (e ∙ normalized-kept c other kept)))
]
normalized-Spells (b ∷ name) other e = elim (Bool-cases (is_separator b)) [
  | inl sep ↦
      skip (Separates-sound b sep)
        (normalized-Spells name other (sym (normalized-skip b name sep) ∙ e))
  | inr kept ↦
      kept-Spells b name other (normalized-Spells name) (sym (normalized-kept b name kept) ∙ e)
]

method_from_name_sound :
    (name : Bytes) (m : SevenZMethod) (info : MethodInfo)
    → info_of m ≡ some info
    → method_from_name name ≡ some m
    → Spells info.name name
unfolding method_from_name
method_from_name_sound name m info own e =
    elim (Option-cases
      (find_info (λ i. eq_bytes (normalized i.name) (normalized name)) method_registry)) [
        | inl unknown ↦ absurd (none-ne-some (rw unknown at e))
        | inr (row, found) ↦
            let (kept, hit) =
              find_info_lem (λ i. info_of i.method ≡ some i)
                (λ i. eq_bytes (normalized i.name) (normalized name)) method_registry row rows_IsOwn
                found in
            let same : row.method ≡ m = cc (rw found at e) in
            let row_info : row ≡ info =
              some-injective row info (sym kept ∙ ap info_of same ∙ own) in
            subst (λ i. Spells i.name name) row_info
              (normalized-Spells row.name name (eq_bytes_sound _ _ hit))
      ]

method_from_name-cong :
    (name other : Bytes)
    → normalized name ≡ normalized other
    → method_from_name name ≡ method_from_name other
unfolding method_from_name
method_from_name-cong name other e = rw e refl

named :
    (m : SevenZMethod) (info : MethodInfo)
    → info_of m ≡ some info
    → IsRegistered m
    → method_from_name info.name ≡ some m
unfolding IsRegistered
named m info own (row, found, same, by_id, by_name, arity) =
    subst (λ i. method_from_name i.name ≡ some m) (some-injective row info (sym found ∙ own))
      by_name

-- A name is recognised as a method exactly when it spells the name in the row of that method, up to
-- the case of ASCII letters and up to `-`, `_` and spaces.
pub method_from_name_iff :
    (name : Bytes) (m : SevenZMethod) (info : MethodInfo)
    → info_of m ≡ some info
    → (method_from_name name ≡ some m) ↔ Spells info.name name
method_from_name_iff name m info own = (
  λ e. method_from_name_sound name m info own e,
  λ s.
      method_from_name-cong name info.name (sym (Spells-normalized s))
      ∙ named m info own (info_of-IsRegistered m),
)
