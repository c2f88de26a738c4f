-- ===== src/Write/Bitmap/Laws.antt =====
-- src/write/header.rs and src/parsers.rs: the bitmaps of `bools_to_bytes`, tested with `bitmap_is_set`.
use r7z.Prelude.{
  ℕ, zero, suc, ◌+◌, ◌-◌, ◌*◌, ◌/◌, ◌%◌, ◌^◌, ◌≤◌, ◌<◌, ◌≡◌, refl, ◌∙◌, bit_or, Bool, true, false,
  ◌&&◌, ◌||◌, List, [], ◌∷◌, length, get_elem?, replicate, All, length-set, length-replicate,
  get_elem?-set_self, get_elem?-set_ne, get_elem?-some, All-get_elem?, All-set, All-replicate, ltb,
  ltb→lt, ◌==◌, div_ceil_8, arith, not,
}
use r7z.Prelude.Bits.{all_below, all_below_sound}
use r7z.Nom.{Bytes, IsByte}
use r7z.Parsers.{bit_of, test_byte, bitmap_is_set}
use r7z.Write.Bitmap.{set_bit, set_bits, bools_to_bytes}
use native.Mathlib.Decide.{ℕ_discrete}

infix 4 ◌≡?◌
◌≡?◌ : Bool → Bool → Bool
true ≡? b = b
false ≡? b = not b

≡?-sound : (a b : Bool) → (a ≡? b) ≡ true → a ≡ b
unfolding ◌≡?◌
≡?-sound a b h = ground arith

or_bit_test : ℕ → ℕ → ℕ → Bool
unfolding ◌≡?◌
or_bit_test b p q = (bit_or b (2 ^ p) / 2 ^ q % 2 == 1) ≡? ((b / 2 ^ q % 2 == 1) || (p == q))

or_bit_table : all_below 256 (λ b. all_below 8 (λ p. all_below 8 (or_bit_test b p))) ≡ true
unfolding all_below or_bit_test
or_bit_table = refl

-- Setting bit `p` of a byte shows at bit `p` alone.
or_bit :
    (b p q : ℕ)
    → b < 256
    → p < 8
    → q < 8
    → (bit_or b (2 ^ p) / 2 ^ q % 2 == 1) ≡ ((b / 2 ^ q % 2 == 1) || (p == q))
or_bit b p q hb hp hq = ≡?-sound _ _ (
    unfold or_bit_test in
    all_below_sound 8 (or_bit_test b p) q
      (all_below_sound 8 (λ p. all_below 8 (or_bit_test b p)) p
        (all_below_sound 256 (λ b. all_below 8 (λ p. all_below 8 (or_bit_test b p))) b or_bit_table
          hb)
        hp)
      hq)

or_byte_table : all_below 256 (λ b. all_below 8 (λ p. ltb (bit_or b (2 ^ p)) 256)) ≡ true
unfolding all_below
or_byte_table = refl

or_byte : (b p : ℕ) → b < 256 → p < 8 → bit_or b (2 ^ p) < 256
or_byte b p hb hp = ltb→lt _ _ (
    all_below_sound 8 (λ p. ltb (bit_or b (2 ^ p)) 256) p
      (all_below_sound 256 (λ b. all_below 8 (λ p. ltb (bit_or b (2 ^ p)) 256)) b or_byte_table hb)
      hp)

-- One flag set.
bitmap_is_set-set_bit :
    (idx i : ℕ) (out : Bytes)
    → All IsByte out
    → idx / 8 < length out
    → bitmap_is_set (set_bit idx out) i ≡ (bitmap_is_set out i || (idx == i))
unfolding bitmap_is_set
bitmap_is_set-set_bit idx i out bytes h =
    let (b, e) = get_elem?-some out (idx / 8) h in
    let hb : b < 256 = All-get_elem? IsByte out (idx / 8) b bytes e in
    elim (ℕ_discrete (idx / 8) (i / 8)) [
      | yes same ↦ ground (
        arith,
        e,
        same,
        or_bit b (7 - idx % 8) (7 - i % 8) hb (omega arith) (omega arith),
        get_elem?-set_self out (idx / 8) (bit_or b (2 ^ (7 - idx % 8))) h,
      )
      | no other ↦
          ground
            (arith, e, get_elem?-set_ne out (idx / 8) (i / 8) (bit_or b (2 ^ (7 - idx % 8))) other)
    ]

set_bit-shape :
    (idx : ℕ) (out : Bytes)
    → All IsByte out
    → idx / 8 < length out
    → All IsByte (set_bit idx out) × (length (set_bit idx out) ≡ length out)
set_bit-shape idx out bytes h =
    let (b, e) = get_elem?-some out (idx / 8) h in
    let hb : b < 256 = All-get_elem? IsByte out (idx / 8) b bytes e in
    let v : ℕ = bit_or b (2 ^ (7 - idx % 8)) in
    rw e (
      All-set IsByte out (idx / 8) v bytes (or_byte b (7 - idx % 8) hb (omega arith)),
      length-set out (idx / 8) v,
    )

-- The flag at `i` of a list that stands at index `idx`.
abbrev flag_at : ℕ → List Bool → ℕ → Bool
flag_at idx [] i = false
flag_at idx (v ∷ vs) i = (v && (idx == i)) || flag_at (idx + 1) vs i

bitmap_is_set-set_bits :
    (values : List Bool) (idx i : ℕ) (out : Bytes)
    → All IsByte out
    → idx + length values ≤ 8 * length out
    → bitmap_is_set (set_bits idx values out) i ≡ (bitmap_is_set out i || flag_at idx values i)
unfolding set_bits
bitmap_is_set-set_bits [] idx i out bytes h = ground arith
bitmap_is_set-set_bits (false ∷ vs) idx i out bytes h =
    bitmap_is_set-set_bits vs (idx + 1) i out bytes (omega arith)
bitmap_is_set-set_bits (true ∷ vs) idx i out bytes h =
    let room : idx / 8 < length out = omega arith in
    let (bytes', same) = set_bit-shape idx out bytes room in
    bitmap_is_set-set_bits vs (idx + 1) i (set_bit idx out) bytes' (omega (arith, same))
    ∙ ground (arith, bitmap_is_set-set_bit idx i out bytes room)

flag_at_before : (vs : List Bool) (idx i : ℕ) → i < idx → flag_at idx vs i ≡ false
flag_at_before [] idx i h = refl
flag_at_before (v ∷ vs) idx i h = ground (arith, flag_at_before vs (idx + 1) i)

abbrev pub flag : List Bool → ℕ → Bool
flag [] i = false
flag (v ∷ vs) zero = v
flag (v ∷ vs) (suc i) = flag vs i

flag_at-flag : (vs : List Bool) (idx i : ℕ) → flag_at idx vs (idx + i) ≡ flag vs i
flag_at-flag [] idx i = refl
flag_at-flag (v ∷ vs) idx zero = ground (arith, flag_at_before vs (idx + 1) (idx + 0))
flag_at-flag (v ∷ vs) idx (suc i) =
    let e : idx + suc i ≡ (idx + 1) + i = omega arith in
    ground (arith, e, flag_at-flag vs (idx + 1) i)

empty_bit : (index : ℕ) → bit_of index 0 ≡ false
unfolding bit_of
empty_bit index = ground arith

get_elem?-zeros : (n j index : ℕ) → test_byte index (get_elem? (replicate n 0) j) ≡ false
unfolding test_byte
get_elem?-zeros zero j index = refl
get_elem?-zeros (suc n) zero index = empty_bit index
get_elem?-zeros (suc n) (suc j) index = get_elem?-zeros n j index

bitmap_is_set-zeros : (n i : ℕ) → bitmap_is_set (replicate n 0) i ≡ false
unfolding bitmap_is_set
bitmap_is_set-zeros n i = get_elem?-zeros n (i / 8) i

set_bits-shape :
    (values : List Bool) (idx : ℕ) (out : Bytes)
    → All IsByte out
    → idx + length values ≤ 8 * length out
    → All IsByte (set_bits idx values out) × (length (set_bits idx values out) ≡ length out)
unfolding set_bits
set_bits-shape [] idx out bytes h = (bytes, refl)
set_bits-shape (false ∷ vs) idx out bytes h = set_bits-shape vs (idx + 1) out bytes (omega arith)
set_bits-shape (true ∷ vs) idx out bytes h =
    let (bytes', same) = set_bit-shape idx out bytes (omega arith) in
    let (all, len) = set_bits-shape vs (idx + 1) (set_bit idx out) bytes' (omega (arith, same)) in
    (all, len ∙ same)

zeros_hold :
    (values : List Bool)
    → 0 + length values ≤ 8 * length {A = ℕ} (replicate (div_ceil_8 (length values)) 0)
zeros_hold values = omega (arith, length-replicate {A = ℕ} (div_ceil_8 (length values)) 0)

-- Every index of the packed bitmap tests as its flag, and past the flags nothing is set.
pub bitmap_is_set-bools_to_bytes :
    (values : List Bool) (i : ℕ) → bitmap_is_set (bools_to_bytes values) i ≡ flag values i
unfolding bools_to_bytes
bitmap_is_set-bools_to_bytes values i =
    bitmap_is_set-set_bits values 0 i _
      (All-replicate IsByte (div_ceil_8 (length values)) 0 (omega arith)) (zeros_hold values)
    ∙ ground (arith, bitmap_is_set-zeros (div_ceil_8 (length values)) i, flag_at-flag values 0 i)

-- The bytes of the bitmap, one for every eight flags.
pub bools_to_bytes-shape :
    (values : List Bool)
    → All IsByte (bools_to_bytes values)
      × (length (bools_to_bytes values) ≡ div_ceil_8 (length values))
unfolding bools_to_bytes
bools_to_bytes-shape values =
    let zeros : Bytes = replicate (div_ceil_8 (length values)) 0 in
    let (all, len) =
      set_bits-shape values 0 zeros
        (All-replicate IsByte (div_ceil_8 (length values)) 0 (omega arith)) (zeros_hold values) in
    (all, len ∙ length-replicate {A = ℕ} (div_ceil_8 (length values)) 0)
