-- ===== src/Prelude/Words.antt =====
-- `u64` and `usize` on a 64-bit target: the checked operations of the standard library.
use Prim.Native.Nat.{ℕ, ◌+◌, ◌-◌, ◌*◌, ◌/◌, ◌^◌, ◌<◌}
use mathlib.Core.Option.{Option, none, some}
use r7z.Prelude.Tests.{ltb, if◌then◌else◌}

abbrev pub word_mod : ℕ
word_mod = 2 ^ 64

abbrev pub IsU64 : ℕ → Type 0
IsU64 v = v < word_mod

-- `usize::try_from` of a `u64`.
abbrev pub try_usize : ℕ → Option ℕ
try_usize n = if ltb n word_mod then some n else none

abbrev pub checked_add : ℕ → ℕ → Option ℕ
checked_add a b = if ltb (a + b) word_mod then some (a + b) else none

abbrev pub checked_mul : ℕ → ℕ → Option ℕ
checked_mul a b = if ltb (a * b) word_mod then some (a * b) else none

abbrev pub checked_sub : ℕ → ℕ → Option ℕ
checked_sub a b = if ltb a b then none else some (a - b)

-- `n.div_ceil(8)`.
abbrev pub div_ceil_8 : ℕ → ℕ
div_ceil_8 n = (n + 7) / 8
