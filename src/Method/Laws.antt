-- ===== src/Method/Laws.antt =====
-- src/method.rs: the registry as a map from ids, from names and from methods.
use r7z.Prelude.{
  ℕ, ◌≡◌, refl, ap, sym, ◌∙◌, Bool, true, some, [], ◌∷◌, arith, Bool-cases, inl, inr, List, All,
  Option-cases,
}
use mathlib.Core.Path.{subst}
use mathlib.Core.Option.{some-injective}
use r7z.Nom.{Bytes}
use r7z.Method.{
  eq_bytes, find_info, method_info, method_from_id, info_of, arity_of, stream_arity, normalized,
  method_from_name,
}
use r7z.Method.Registry.{SevenZMethod, MethodInfo, discriminant, method_registry}

-- The method that stands in the registry for the id of `m`.
unfoldable pub canonical : SevenZMethod → SevenZMethod
canonical SevenZMethod.fast_lzma2 = SevenZMethod.lzma2
canonical m = m

unfoldable pub expected_arity : SevenZMethod → ℕ × ℕ
expected_arity SevenZMethod.bcj2 = (4, 1)
expected_arity m = (1, 1)

-- What the registry holds for a method.
unfoldable pub IsRegistered : SevenZMethod → Type 0
IsRegistered m =
    (info : MethodInfo) × (info_of m ≡ some info)
    × (info.method ≡ m)
    × (method_from_id info.id ≡ some (canonical m))
    × (method_from_name info.name ≡ some m)
    × (stream_arity m ≡ some (expected_arity m))

-- Every method is registered: its row is found and carries the method; the id of the row leads to the
-- method, to LZMA2 for Fast LZMA2, which shares that id; the name of the row leads back to the method;
-- and the arity is one input and one output, but four inputs and one output for BCJ2.
pub info_of-IsRegistered : (m : SevenZMethod) → IsRegistered m
unfolding IsRegistered info_of find_info method_registry discriminant method_from_id method_info
    eq_bytes canonical method_from_name normalized stream_arity arity_of expected_arity
info_of-IsRegistered SevenZMethod.copy = (_, refl, refl, refl, refl, refl)
info_of-IsRegistered SevenZMethod.lzma = (_, refl, refl, refl, refl, refl)
info_of-IsRegistered SevenZMethod.lzma2 = (_, refl, refl, refl, refl, refl)
info_of-IsRegistered SevenZMethod.bzip2 = (_, refl, refl, refl, refl, refl)
info_of-IsRegistered SevenZMethod.ppmd = (_, refl, refl, refl, refl, refl)
info_of-IsRegistered SevenZMethod.deflate = (_, refl, refl, refl, refl, refl)
info_of-IsRegistered SevenZMethod.deflate64 = (_, refl, refl, refl, refl, refl)
info_of-IsRegistered SevenZMethod.bcj = (_, refl, refl, refl, refl, refl)
info_of-IsRegistered SevenZMethod.bcj2 = (_, refl, refl, refl, refl, refl)
info_of-IsRegistered SevenZMethod.arm = (_, refl, refl, refl, refl, refl)
info_of-IsRegistered SevenZMethod.arm64 = (_, refl, refl, refl, refl, refl)
info_of-IsRegistered SevenZMethod.arm_thumb = (_, refl, refl, refl, refl, refl)
info_of-IsRegistered SevenZMethod.ia64 = (_, refl, refl, refl, refl, refl)
info_of-IsRegistered SevenZMethod.ppc = (_, refl, refl, refl, refl, refl)
info_of-IsRegistered SevenZMethod.sparc = (_, refl, refl, refl, refl, refl)
info_of-IsRegistered SevenZMethod.riscv = (_, refl, refl, refl, refl, refl)
info_of-IsRegistered SevenZMethod.delta = (_, refl, refl, refl, refl, refl)
info_of-IsRegistered SevenZMethod.swap2 = (_, refl, refl, refl, refl, refl)
info_of-IsRegistered SevenZMethod.swap4 = (_, refl, refl, refl, refl, refl)
info_of-IsRegistered SevenZMethod.zstd = (_, refl, refl, refl, refl, refl)
info_of-IsRegistered SevenZMethod.brotli = (_, refl, refl, refl, refl, refl)
info_of-IsRegistered SevenZMethod.lz4 = (_, refl, refl, refl, refl, refl)
info_of-IsRegistered SevenZMethod.lz5 = (_, refl, refl, refl, refl, refl)
info_of-IsRegistered SevenZMethod.lizard = (_, refl, refl, refl, refl, refl)
info_of-IsRegistered SevenZMethod.fast_lzma2 = (_, refl, refl, refl, refl, refl)
info_of-IsRegistered SevenZMethod.lzham = (_, refl, refl, refl, refl, refl)
info_of-IsRegistered SevenZMethod.seven_z_aes = (_, refl, refl, refl, refl, refl)
info_of-IsRegistered SevenZMethod.aes256_cbc = (_, refl, refl, refl, refl, refl)

pub eq_bytes_sound : (xs ys : Bytes) → eq_bytes xs ys ≡ true → xs ≡ ys
unfolding eq_bytes
eq_bytes_sound [] [] h = refl
eq_bytes_sound [] (b ∷ ys) h = cc
eq_bytes_sound (a ∷ xs) [] h = cc
eq_bytes_sound (a ∷ xs) (b ∷ ys) h = ground (arith, eq_bytes_sound xs ys)

-- A row that is found passes the test, and holds what all rows hold.
pub find_info_lem :
    (P : MethodInfo → Type 0) (test : MethodInfo → Bool) (infos : List MethodInfo)
    (info : MethodInfo)
    → All P infos
    → find_info test infos ≡ some info
    → P info × (test info ≡ true)
unfolding find_info
find_info_lem P test [] info all e = cc
find_info_lem P test (i ∷ infos) info (p, all) e = elim (Bool-cases (test i)) [
  | inl hit ↦
      let same : some i ≡ some info = (rw hit at e) in
      subst (λ x. P x × (test x ≡ true)) (some-injective i info same) (p, hit)
  | inr miss ↦ find_info_lem P test infos info all (rw miss at e)
]

pub rows_IsOwn : All (λ info. info_of info.method ≡ some info) method_registry
unfolding info_of find_info method_registry discriminant
rows_IsOwn = (
  refl,
  (
    refl,
    (
      refl,
      (
        refl,
        (
          refl,
          (
            refl,
            (
              refl,
              (
                refl,
                (
                  refl,
                  (
                    refl,
                    (
                      refl,
                      (
                        refl,
                        (
                          refl,
                          (
                            refl,
                            (
                              refl,
                              (
                                refl,
                                (
                                  refl,
                                  (
                                    refl,
                                    (
                                      refl,
                                      (
                                        refl,
                                        (
                                          refl,
                                          (
                                            refl,
                                            (refl, (refl, (refl, (refl, (refl, (refl, tt)))))),
                                          ),
                                        ),
                                      ),
                                    ),
                                  ),
                                ),
                              ),
                            ),
                          ),
                        ),
                      ),
                    ),
                  ),
                ),
              ),
            ),
          ),
        ),
      ),
    ),
  ),
)

-- An id that is recognised is the id in the row of the method that it is recognised as.
pub method_from_id_sound :
    (id : Bytes) (m : SevenZMethod)
    → method_from_id id ≡ some m
    → (info : MethodInfo) × (info_of m ≡ some info) × (info.id ≡ id)
unfolding method_from_id method_info
method_from_id_sound id m e = elim (Option-cases (method_info id)) [
  | inl unknown ↦ cc (rw unknown at e)
  | inr (info, found) ↦
      let (own, hit) =
        find_info_lem (λ i. info_of i.method ≡ some i) (λ i. eq_bytes i.id id) method_registry info
          rows_IsOwn found in
      let same : info.method ≡ m = cc (rw found at e) in
      (info, ap info_of (sym same) ∙ own, eq_bytes_sound info.id id hit)
]
