-- ===== src/FilesInfo/Names/Laws.antt =====
-- src/files_info.rs: the names that a validated name block holds.
use r7z.Prelude.{
  ℕ, zero, suc, ◌+◌, ◌-◌, ◌<◌, ◌≡◌, ◌≢◌, refl, sym, ap, ◌∙◌, inl, inr, Bool, true, false, Option,
  none, some, List, [], ◌∷◌, ◌++◌, map, length, take, drop, ok, err, arith, if◌then◌else◌,
  length-append, take-append, drop-append, append_assoc, Bool-cases, leb, ◌==◌, ◌||◌,
}
use r7z.Nom.{Bytes, ParseError}
use r7z.FilesInfo.Names.{
  NameSlices, is_null, find_null, next, name_slices, as_chunks, any_null, all_terminated,
  names_complete, validate_name_data,
}

-- The first calls of `next`, as far as it gives items.
unfoldable pub take_names : ℕ → NameSlices → List (Option Bytes)
take_names zero s = []
take_names (suc n) s = elim (next s).0 [ none ↦ [] | some name ↦ name ∷ take_names n (next s).1 ]

-- A block of names, each with its end.
abbrev pub name_block : List Bytes → Bytes
name_block [] = []
name_block (name ∷ names) = name ++ (0 ∷ 0 ∷ name_block names)

-- What a search for the end finds in the block behind `position`.
record Found (position : ℕ) (rest : Bytes) (units : List (ℕ × ℕ)) : Type 0 where
  name : Bytes
  behind : Bytes
  splits : rest ≡ name ++ (0 ∷ 0 ∷ behind)
  chunks : as_chunks behind ≡ (units, (as_chunks rest).1)
  finds : find_null position rest ≡ (some (position + length name), position + length name + 2)

is_null-eq : (a b : ℕ) → is_null a b ≡ true → (a ≡ 0) × (b ≡ 0)
is_null-eq a b h = ground arith

-- The end that is found is given as one position.
found_at : ℕ → Option ℕ × ℕ
found_at p = (some p, p + 2)

end_here :
    (position a b : ℕ) (rest : Bytes) (units : List (ℕ × ℕ))
    → is_null a b ≡ true
    → (as_chunks rest).0 ≡ units
    → Found position (a ∷ b ∷ rest) units
unfolding as_chunks find_null found_at
end_here position a b rest units hit e = record {
  name = [];
  behind = rest;
  splits = rw ((is_null-eq a b hit).0, (is_null-eq a b hit).1) refl;
  chunks = ap (λ u. (u, (as_chunks rest).1)) e;
  finds = rw hit (ap found_at (omega arith));
}

end_later :
    (position a b : ℕ) (rest : Bytes) (units : List (ℕ × ℕ))
    → is_null a b ≡ false
    → Found (position + 2) rest units
    → Found position (a ∷ b ∷ rest) units
unfolding as_chunks find_null found_at
end_later position a b rest units miss f = record {
  name = a ∷ b ∷ f.name;
  behind = f.behind;
  splits = ap (λ t. a ∷ b ∷ t) f.splits;
  chunks = f.chunks;
  finds = rw miss (f.finds ∙ ap found_at (omega arith));
}

any_null-Found :
    (position : ℕ) (rest : Bytes) (units : List (ℕ × ℕ))
    → any_null (as_chunks rest).0 ≡ (true, units)
    → Found position rest units
unfolding any_null as_chunks
any_null-Found position [] units e = cc
any_null-Found position (a ∷ []) units e = cc
any_null-Found position (a ∷ b ∷ rest) units e = elim (Bool-cases (is_null a b)) [
  | inl hit ↦ end_here position a b rest units hit (ap (λ p. p.1) (rw hit at e))
  | inr miss ↦
      end_later position a b rest units miss
        (any_null-Found (position + 2) rest units (rw miss at e))
]

-- The names that are left behind a position.
record Names (s : NameSlices) (n : ℕ) (rest : Bytes) : Type 0 where
  pub names : List Bytes
  pub taken : take_names n s ≡ map (λ t. some t) names
  pub counted : length names ≡ n
  pub joined : name_block names ≡ rest

module _ (s : NameSlices) (before rest : Bytes) (units : List (ℕ × ℕ)) where
  room :
      s.name_data ≡ before ++ rest
      → s.position ≡ length before
      → (f : Found s.position rest units)
      → ((length s.name_data == 0) || leb (length s.name_data) (s.position + 1)) ≡ false
  room e p f = ground (
    arith,
    ap length e,
    length-append before rest,
    ap length f.splits,
    length-append f.name (0 ∷ 0 ∷ f.behind),
  )

  next-Found :
      s.name_data ≡ before ++ rest
      → s.position ≡ length before
      → s.index < s.count
      → (f : Found s.position rest units)
      → next s ≡ (
        some (some f.name),
        record s { position = s.position + length f.name + 2; index = s.index + 1 },
      )
  unfolding next
  next-Found e p i f =
      let dropped : drop s.position s.name_data ≡ rest = rw (e, p) (drop-append before rest) in
      let size : s.position + length f.name - s.position ≡ length f.name = omega arith in
      let within : leb s.count s.index ≡ false = ground arith in
      rw (within, room e p f, dropped, f.finds)
        (ap
          (λ t. (
            some (some t),
            record s { position = s.position + length f.name + 2; index = s.index + 1 },
          ))
          (ap (λ r. take (s.position + length f.name - s.position) r) dropped
            ∙ ap (λ n. take n rest) size
            ∙ rw f.splits (take-append f.name (0 ∷ 0 ∷ f.behind))))

chunks_complete_nil :
    (rest : Bytes) → names_complete (true, (as_chunks rest).0) (as_chunks rest).1 ≡ true → rest ≡ []
unfolding as_chunks
chunks_complete_nil [] h = refl
chunks_complete_nil (a ∷ []) h = cc
chunks_complete_nil (a ∷ b ∷ rest) h = cc

-- The state behind a name that was found.
abbrev after_name : NameSlices → ℕ → NameSlices
after_name s n = record s { position = s.position + n + 2; index = s.index + 1 }

-- What lies before that state.
abbrev before_next : Bytes → Bytes → Bytes
before_next before name = before ++ (name ++ (0 ∷ 0 ∷ []))

splits_next :
    (position : ℕ) (before rest : Bytes) (units : List (ℕ × ℕ)) (f : Found position rest units)
    → before ++ rest ≡ before_next before f.name ++ f.behind
splits_next position before rest units f =
    ap (λ t. before ++ t) f.splits
    ∙ sym (
        append_assoc before (f.name ++ (0 ∷ 0 ∷ [])) f.behind
        ∙ ap (λ t. before ++ t) (append_assoc f.name (0 ∷ 0 ∷ []) f.behind))

length-before_next :
    (before name : Bytes) → length (before_next before name) ≡ length before + length name + 2
length-before_next before name =
    omega (arith, length-append before (name ++ (0 ∷ 0 ∷ [])), length-append name (0 ∷ 0 ∷ []))

-- One name more in front of the others.
one_name_more :
    (n : ℕ) (s : NameSlices) (before rest : Bytes) (units : List (ℕ × ℕ))
    → s.name_data ≡ before ++ rest
    → s.position ≡ length before
    → s.index < s.count
    → (f : Found s.position rest units) → Names (after_name s (length f.name)) n f.behind
    → Names s (suc n) rest
unfolding take_names
one_name_more n s before rest units e p i f more = record {
  names = f.name ∷ more.names;
  taken =
      let found = next-Found s before rest units e p i f in
      rw (take_names, ap (λ r. r.0) found, ap (λ r. r.1) found)
        (ap (λ t. some f.name ∷ t) more.taken);
  counted = ap suc more.counted;
  joined = rw more.joined (sym f.splits);
}

pub true_ne_false : true ≢ false
true_ne_false e = cc

-- The names behind a position that the block ends with.
all_terminated-Names :
    (n : ℕ) (s : NameSlices) (before rest : Bytes)
    → s.name_data ≡ before ++ rest
    → s.position ≡ length before
    → s.index + n ≡ s.count
    → names_complete (all_terminated n (as_chunks rest).0) (as_chunks rest).1 ≡ true
    → Names s n rest
unfolding all_terminated take_names
all_terminated-Names zero s before rest e p c h = record {
  names = [];
  taken = refl;
  counted = refl;
  joined = sym (chunks_complete_nil rest h);
}
all_terminated-Names (suc n) s before rest e p c h =
    elim (Bool-cases (any_null (as_chunks rest).0).0) [
      | inl found ↦
          let f =
            any_null-Found s.position rest (any_null (as_chunks rest).0).1
              (ap (λ b. (b, (any_null (as_chunks rest).0).1)) found) in
          one_name_more n s before rest (any_null (as_chunks rest).0).1 e p (omega arith) f (
            all_terminated-Names n (after_name s (length f.name)) (before_next before f.name)
              f.behind (e ∙ splits_next s.position before rest (any_null (as_chunks rest).0).1 f)
              (omega (arith, length-before_next before f.name, p)) (omega arith)
              (rw f.chunks (rw found at h)))
      | inr missing ↦ absurd (true_ne_false (sym (rw missing at h)))
    ]

accepted : (b : Bool) (e : ParseError) → (if b then ok (tt {0}) else err e) ≡ ok tt → b ≡ true
accepted true e h = refl
accepted false e h = cc

-- A name block that is accepted for a number of files holds that many names, each with its end and
-- nothing else, and the iterator gives exactly these.
pub validate_name_data-Names :
    (name_data : Bytes) (num : ℕ) (error_input : Bytes)
    → validate_name_data name_data num error_input ≡ ok tt
    → (names : List Bytes) × (take_names num (name_slices name_data num)
        ≡ map (λ name. some name) names)
      × (length names ≡ num)
      × (name_block names ≡ name_data)
unfolding validate_name_data
validate_name_data-Names name_data num error_input h =
    let found =
      all_terminated-Names num (name_slices name_data num) [] name_data refl refl (omega arith)
        (accepted _ _ h) in
    (found.names, found.taken, found.counted, found.joined)
