-- ===== src/Method.antt =====
-- src/method.rs: the registry of coder methods, and the lookups by id, by name and by method.
pub mod Registry
pub mod Laws
pub mod Spelling
use r7z.Prelude.{
  ℕ, Bool, true, false, ◌||◌, ◌&&◌, ◌+◌, Option, none, some, List, [], ◌∷◌, if◌then◌else◌, ◌==◌,
  leb,
}
use r7z.Nom.{Bytes}
use Registry.{SevenZMethod, MethodInfo, discriminant, method_registry}

-- `==` of byte slices.
unfoldable pub eq_bytes : Bytes → Bytes → Bool
eq_bytes [] [] = true
eq_bytes (a ∷ xs) (b ∷ ys) = (a == b) && eq_bytes xs ys
eq_bytes _ _ = false

-- `iter().find(..)`
unfoldable pub find_info : (MethodInfo → Bool) → List MethodInfo → Option MethodInfo
find_info test [] = none
find_info test (info ∷ infos) = if test info then some info else find_info test infos

unfoldable pub method_info : Bytes → Option MethodInfo
method_info id = find_info (λ info. eq_bytes info.id id) method_registry

abbrev pub method_of : Option MethodInfo → Option SevenZMethod
method_of none = none
method_of (some info) = some info.method

unfoldable pub method_from_id : Bytes → Option SevenZMethod
method_from_id id = method_of (method_info id)

-- `SevenZMethod::info`; `none` where the `expect` would panic.
unfoldable pub info_of : SevenZMethod → Option MethodInfo
info_of m = find_info (λ info. discriminant info.method == discriminant m) method_registry

unfoldable pub arity_of : Option MethodInfo → Option (ℕ × ℕ)
arity_of none = none
arity_of (some info) = some info.stream_arity

-- `SevenZMethod::stream_arity`
unfoldable pub stream_arity : SevenZMethod → Option (ℕ × ℕ)
stream_arity m = arity_of (info_of m)

-- `-`, `_` and the space.
abbrev pub is_separator : ℕ → Bool
is_separator b = b == 0x2D || b == 0x5F || b == 0x20

-- `to_ascii_lowercase` of a byte.
abbrev pub to_ascii_lowercase : ℕ → ℕ
to_ascii_lowercase b = if leb 0x41 b && leb b 0x5A then b + 0x20 else b

-- `.bytes().filter(..).map(..)`
unfoldable pub normalized : Bytes → Bytes
normalized [] = []
normalized (b ∷ name) =
    if is_separator b then normalized name else to_ascii_lowercase b ∷ normalized name

unfoldable pub method_from_name : Bytes → Option SevenZMethod
method_from_name name =
    method_of
      (find_info (λ info. eq_bytes (normalized info.name) (normalized name)) method_registry)
