-- ===== src/Nom.antt =====
-- The vocabulary of the `nom` parsers: byte slices, error kinds and `IResult`.
pub mod Consumes
pub mod Repeat
pub mod Tracks
use r7z.Prelude.{ℕ, ◌+◌, ◌*◌, ◌<◌, List, Result, ok, ◌>>=◌}

-- A byte slice. Its elements are below 256 where a theorem says so.
abbrev pub Bytes : Type 0
Bytes = List ℕ

abbrev pub IsByte : ℕ → Type 0
IsByte b = b < 256

-- `nom::error::ErrorKind`, as far as the crate names it.
pub data ErrorKind : Type 0 where
  eof satisfy verify too_large : ErrorKind

-- `nom::Err<nom::error::Error<&[u8]>>`. The payload of `Incomplete` is never read.
pub data ParseError : Type 0 where
  error : Bytes → ErrorKind → ParseError
  failure : Bytes → ErrorKind → ParseError
  incomplete : ParseError

-- `nom::IResult<&[u8], A>`: what is left of the input, and the value.
abbrev pub IResult {ℓ} : Type ℓ → Type ℓ
IResult A = Result ParseError (Bytes × A)

-- Four bytes as a little-endian number.
abbrev pub from_le_bytes32 : ℕ → ℕ → ℕ → ℕ → ℕ
from_le_bytes32 a b c d = a + 256 * b + 65_536 * c + 16_777_216 * d

-- A value with what is left, its result replaced.
abbrev pub map_value {ℓ κ} : {A : Type ℓ} {B : Type κ} → (A → B) → IResult A → IResult B
map_value f r = r >>= λ (rest, a). ok (rest, f a)
