-- ===== src/Tests/Paths.antt =====
-- Names of entries and the paths that extraction makes of them, at concrete inputs.
use r7z.Prelude.{ℕ, false, ◌==◌, arith, ◌≡◌, ◌≢◌, refl, [], ◌∷◌, ok, err, All}
use r7z.Errors.{unsafe_path}
use r7z.Paths.{PathBuf, split, has_windows_prefix, is_refused, safe_archive_name}
use r7z.Paths.Parts.{IsNameByte, IsPlain}
use r7z.Paths.Laws.{safe_archive_name-IsPlain}
use r7z.Paths.Accepts.{safe_archive_name-join}

-- `./a//b\c` becomes `a/b/c`.
safe_archive_name-IsPlain_example :
    ◌≢◌ {A = PathBuf} ((97 ∷ []) ∷ (98 ∷ []) ∷ (99 ∷ []) ∷ []) []
    × All IsPlain ((97 ∷ []) ∷ (98 ∷ []) ∷ (99 ∷ []) ∷ [])
unfolding safe_archive_name split has_windows_prefix is_refused
safe_archive_name-IsPlain_example =
    safe_archive_name-IsPlain (46 ∷ 47 ∷ 97 ∷ 47 ∷ 47 ∷ 98 ∷ 92 ∷ 99 ∷ []) refl

name_byte : (c : ℕ) → (c == 47) ≡ false → (c == 92) ≡ false → (c == 0) ≡ false → IsNameByte c
name_byte c s b z = (λ e. ground arith, λ e. ground arith, λ e. ground arith)

dots_pass : IsPlain (46 ∷ 46 ∷ 97 ∷ [])
dots_pass = (
  λ e. cc,
  λ e. cc,
  λ e. cc,
  (name_byte 46 refl refl refl, (name_byte 46 refl refl refl, (name_byte 97 refl refl refl, tt))),
)

letter_passes : IsPlain (98 ∷ [])
letter_passes = (λ e. cc, λ e. cc, λ e. cc, (name_byte 98 refl refl refl, tt))

-- `..a/b`.
safe_archive_name-join_example :
    safe_archive_name (46 ∷ 46 ∷ 97 ∷ 47 ∷ 98 ∷ []) ≡ ok ((46 ∷ 46 ∷ 97 ∷ []) ∷ (98 ∷ []) ∷ [])
unfolding has_windows_prefix
safe_archive_name-join_example =
    safe_archive_name-join (46 ∷ 46 ∷ 97 ∷ []) ((98 ∷ []) ∷ []) (dots_pass, (letter_passes, tt))
      refl

-- `a/../b`.
parent_refused : safe_archive_name (97 ∷ 47 ∷ 46 ∷ 46 ∷ 47 ∷ 98 ∷ []) ≡ err unsafe_path
unfolding safe_archive_name split has_windows_prefix is_refused
parent_refused = refl

-- `C:x` is refused, and `./C:x` becomes `C:x`.
drive_refused : safe_archive_name (67 ∷ 58 ∷ 120 ∷ []) ≡ err unsafe_path
unfolding safe_archive_name split has_windows_prefix is_refused
drive_refused = refl

drive_behind_dot : safe_archive_name (46 ∷ 47 ∷ 67 ∷ 58 ∷ 120 ∷ []) ≡ ok ((67 ∷ 58 ∷ 120 ∷ []) ∷ [])
unfolding safe_archive_name split has_windows_prefix is_refused
drive_behind_dot = refl
