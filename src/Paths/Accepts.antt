-- ===== src/Paths/Accepts.antt =====
-- src/archive.rs: the paths that `safe_archive_name` gives back as they are.
use r7z.Prelude.{
  ℕ, true, false, ◌≡◌, refl, sym, ap, ◌∙◌, inl, inr, Bool-cases, [], ◌∷◌, ◌++◌, ok, All, arith,
  ==_iff, ◌==◌, append_assoc, append-nil,
}
use r7z.Nom.{Bytes}
use r7z.Paths.{
  PathBuf, is_separator, split, is_skipped, is_parent, any_parent, any_zero, push_parts,
  has_windows_prefix, is_empty, is_refused, safe_archive_name, starts_separated,
}
use r7z.Paths.Parts.{IsNameByte, IsPlain, join}

byte_kept : (c : ℕ) → IsNameByte c → (is_separator c ≡ false) × ((c == 0) ≡ false)
byte_kept c (a, b, z) = (ground arith, ground arith)

-- The bytes of a part up to a separator, or up to the end.
split_part :
    (part : Bytes) (rest : Bytes)
    → All IsNameByte part
    → split (part ++ (47 ∷ rest)) ≡ part ∷ split rest
unfolding split
split_part [] rest h = refl
split_part (c ∷ part) rest (k, h) = rw ((byte_kept c k).0, split_part part rest h) refl

split_last : (part : Bytes) → All IsNameByte part → split part ≡ part ∷ []
unfolding split
split_last [] h = refl
split_last (c ∷ part) (k, h) = rw ((byte_kept c k).0, split_last part h) refl

split-join :
    (part : Bytes) (parts : PathBuf)
    → All IsPlain (part ∷ parts)
    → split (join (part ∷ parts)) ≡ part ∷ parts
split-join part [] (h, k) = split_last part h.3
split-join part (next ∷ parts) (h, k) =
    split_part part (join (next ∷ parts)) h.3 ∙ ap (λ t. part ∷ t) (split-join next parts k)

zero_part :
    (part rest : Bytes)
    → All IsNameByte part
    → any_zero rest ≡ false
    → any_zero (part ++ rest) ≡ false
zero_part [] rest h k = k
zero_part (c ∷ part) rest (b, h) k = rw ((byte_kept c b).1) (zero_part part rest h k)

zero_last : (part : Bytes) → All IsNameByte part → any_zero part ≡ false
zero_last [] h = refl
zero_last (c ∷ part) (b, h) = rw ((byte_kept c b).1) (zero_last part h)

zero-join : (parts : PathBuf) → All IsPlain parts → any_zero (join parts) ≡ false
zero-join [] h = refl
zero-join (part ∷ []) (h, k) = zero_last part h.3
zero-join (part ∷ next ∷ parts) (h, k) =
    zero_part part (47 ∷ join (next ∷ parts)) h.3 (zero-join (next ∷ parts) k)

two_dots : (a b : ℕ) → is_parent (a ∷ b ∷ []) ≡ true → (a ≡ 46) × (b ≡ 46)
two_dots a b e = ground arith

not_parent : (part : Bytes) → IsPlain part → is_parent part ≡ false
not_parent [] h = refl
not_parent (a ∷ []) h = refl
not_parent (a ∷ b ∷ []) h = elim (Bool-cases (is_parent (a ∷ b ∷ []))) [
  | inl e ↦ absurd (h.2 (rw ((two_dots a b e).0, (two_dots a b e).1) refl))
  | inr e ↦ e
]
not_parent (a ∷ b ∷ c ∷ rest) h = refl

not_skipped : (part : Bytes) → IsPlain part → is_skipped part ≡ false
not_skipped [] h = absurd (h.0 refl)
not_skipped (a ∷ []) h = elim (Bool-cases (is_skipped (a ∷ []))) [
  | inl e ↦ absurd (h.1 (ap (λ c. c ∷ []) ((==_iff a 46).0 e)))
  | inr e ↦ e
]
not_skipped (a ∷ b ∷ rest) h = refl

no_parent : (parts : PathBuf) → All IsPlain parts → any_parent parts ≡ false
no_parent [] h = refl
no_parent (part ∷ parts) (h, k) = rw (not_parent part h) (no_parent parts k)

push_parts-plain :
    (normalized parts : PathBuf)
    → All IsPlain parts
    → push_parts normalized parts ≡ ok (normalized ++ parts)
push_parts-plain normalized [] h = ap ok (sym (append-nil normalized))
push_parts-plain normalized (part ∷ parts) (h, k) =
    rw (not_skipped part h, not_parent part h)
      (push_parts-plain (normalized ++ (part ∷ [])) parts k
        ∙ ap ok (append_assoc normalized (part ∷ []) parts))

some_byte : (part : Bytes) (parts : PathBuf) → IsPlain part → is_empty (join (part ∷ parts)) ≡ false
some_byte [] parts h = absurd (h.0 refl)
some_byte (c ∷ part) [] h = refl
some_byte (c ∷ part) (next ∷ parts) h = refl

starts-join :
    (part : Bytes) (parts : PathBuf) → IsPlain part → starts_separated (join (part ∷ parts)) ≡ false
starts-join [] parts h = absurd (h.0 refl)
starts-join (c ∷ part) [] h = (byte_kept c h.3.0).0
starts-join (c ∷ part) (next ∷ parts) h = (byte_kept c h.3.0).0

-- A path of plain parts, written with `/` between them, is accepted and gives its parts, unless it
-- begins like a Windows prefix.
pub safe_archive_name-join :
    (part : Bytes) (parts : PathBuf)
    → All IsPlain (part ∷ parts)
    → has_windows_prefix (join (part ∷ parts)) ≡ false
    → safe_archive_name (join (part ∷ parts)) ≡ ok (part ∷ parts)
unfolding safe_archive_name is_refused
safe_archive_name-join part parts h w =
    rw
      (
        some_byte part parts h.0,
        zero-join (part ∷ parts) h,
        starts-join part parts h.0,
        w,
        split-join part parts h,
        no_parent (part ∷ parts) h,
        push_parts-plain [] (part ∷ parts) h,
      )
      refl
