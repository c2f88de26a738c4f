-- ===== src/Paths/Parts.antt =====
-- src/archive.rs: what the parts of a path are.
use r7z.Prelude.{ℕ, ◌≢◌, [], ◌∷◌, ◌++◌, All}
use r7z.Nom.{Bytes}
use r7z.Paths.{PathBuf}

-- A byte of a part: no separator and no zero.
abbrev pub IsNameByte : ℕ → Type 0
IsNameByte c = (c ≢ 47) × (c ≢ 92) × (c ≢ 0)

-- A part that names something below the directory it is joined to.
abbrev pub IsPlain : Bytes → Type 0
IsPlain part = (part ≢ []) × (part ≢ (46 ∷ [])) × (part ≢ (46 ∷ 46 ∷ [])) × All IsNameByte part

-- A path as it is written.
abbrev pub join : PathBuf → Bytes
join [] = []
join (part ∷ []) = part
join (part ∷ next ∷ parts) = part ++ (47 ∷ join (next ∷ parts))
