-- ===== src/Paths/Laws.antt =====
-- src/archive.rs: what `safe_archive_name` accepts.
use mathlib.Core.Path.{subst}
use r7z.Prelude.{
  ℕ, Bool, true, false, ◌||◌, ◌≡◌, ◌≢◌, refl, ◌∙◌, inl, inr, Bool-cases, List, [], ◌∷◌, ok, err,
  Result, >>=-eq-ok, ok_inj, All, All-append, arith, ◌==◌,
}
use r7z.Nom.{Bytes}
use r7z.Errors.{R7zError, unsafe_path}
use r7z.Paths.{
  PathBuf, is_separator, push_first, split, is_skipped, is_parent, any_zero, push_part, push_parts,
  not_empty, is_refused, safe_archive_name,
}
use r7z.Paths.Parts.{IsNameByte, IsPlain}

name_byte : (c : ℕ) → is_separator c ≡ false → (c == 0) ≡ false → IsNameByte c
name_byte c s z = (λ e. ground arith, λ e. ground arith, λ e. ground arith)

later : {a b : Bool} → a ≡ false → (a || b) ≡ false → b ≡ false
later {a = true} z h = cc
later {a = false} z h = h

left_false : {a : Bool} (b : Bool) → (a || b) ≡ false → a ≡ false
left_false {a = true} b h = h
left_false {a = false} b h = refl

cons_nil : {part : Bytes} {parts : PathBuf} → (part ∷ parts) ≢ []
cons_nil e = cc

push_first_bytes :
    (c : ℕ) (parts : List Bytes)
    → IsNameByte c
    → All (λ part. All IsNameByte part) parts
    → All (λ part. All IsNameByte part) (push_first c parts)
push_first_bytes c [] k h = ((k, tt), tt)
push_first_bytes c (part ∷ parts) k (h, t) = ((k, h), t)

split_bytes :
    (name : Bytes) → any_zero name ≡ false → All (λ part. All IsNameByte part) (split name)
unfolding split
split_bytes [] h = (tt, tt)
split_bytes (c ∷ rest) h = elim (Bool-cases (c == 0)) [
  | inl z ↦ cc
  | inr z ↦ elim (Bool-cases (is_separator c)) [
    | inl s ↦ rw s (tt, split_bytes rest (later z h))
    | inr s ↦
        rw s (push_first_bytes c (split rest) (name_byte c s z) (split_bytes rest (later z h)))
  ]
]

differs : (test : Bytes → Bool) (p q : Bytes) → test p ≡ false → test q ≡ true → p ≢ q
differs test p q a b e = cc

part_passes :
    (part : Bytes)
    → All IsNameByte part
    → is_skipped part ≡ false
    → is_parent part ≡ false
    → IsPlain part
part_passes part h s p = (
  differs is_skipped part [] s refl,
  differs is_skipped part (46 ∷ []) s refl,
  differs is_parent part (46 ∷ 46 ∷ []) p refl,
  h,
)

not_ok : {p : PathBuf} → ◌≡◌ {A = Result R7zError PathBuf} (err unsafe_path) (ok p) → ⊥
not_ok e = cc

push_part-IsPlain :
    (normalized : PathBuf) (part : Bytes) {n : PathBuf}
    → All IsPlain normalized
    → All IsNameByte part
    → push_part normalized part ≡ ok n
    → All IsPlain n
push_part-IsPlain normalized part {n = n} hs h e = elim (Bool-cases (is_skipped part)) [
  | inl s ↦ subst (All IsPlain) (ok_inj (rw s at e)) hs
  | inr s ↦ elim (Bool-cases (is_parent part)) [
    | inl p ↦ absurd (not_ok (rw (s, p) at e))
    | inr p ↦
        subst (All IsPlain) (ok_inj (rw (s, p) at e))
          (All-append IsPlain normalized (part ∷ []) hs (part_passes part h s p, tt))
  ]
]

push_parts-IsPlain :
    (normalized : PathBuf) (parts : List Bytes) {n : PathBuf}
    → All IsPlain normalized
    → All (λ part. All IsNameByte part) parts
    → push_parts normalized parts ≡ ok n
    → All IsPlain n
push_parts-IsPlain normalized [] hs h e = subst (All IsPlain) (ok_inj e) hs
push_parts-IsPlain normalized (part ∷ parts) hs (h, t) e =
    let (m, first, rest) = >>=-eq-ok (push_part normalized part) (λ n. push_parts n parts) e in
    push_parts-IsPlain m parts (push_part-IsPlain normalized part hs h first) t rest

not_empty-kept : (p : PathBuf) {q : PathBuf} → not_empty p ≡ ok q → (q ≢ []) × (p ≡ q)
not_empty-kept [] e = absurd (not_ok e)
not_empty-kept (part ∷ parts) {q = q} e = (λ h. cons_nil (ok_inj e ∙ h), ok_inj e)

no_zero : (name : Bytes) → is_refused name ≡ false → any_zero name ≡ false
unfolding is_refused
no_zero [] r = refl
no_zero (c ∷ rest) r = left_false _ r

-- A name that is accepted gives a path with a part, and each of its parts is plain.
pub safe_archive_name-IsPlain :
    (name : Bytes) {path : PathBuf}
    → safe_archive_name name ≡ ok path
    → (path ≢ []) × All IsPlain path
unfolding safe_archive_name
safe_archive_name-IsPlain name e = elim (Bool-cases (is_refused name)) [
  | inl r ↦ absurd (not_ok (rw r at e))
  | inr r ↦
      let (path, pushed, kept) = >>=-eq-ok (push_parts [] (split name)) not_empty (rw r at e) in
      let (some_part, same) = not_empty-kept path kept in
      (
        some_part,
        subst (All IsPlain) same
            (push_parts-IsPlain [] (split name) tt (split_bytes name (no_zero name r)) pushed),
      )
]
