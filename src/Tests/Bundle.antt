-- ===== src/Tests/Bundle.antt =====
-- Functions that behave as the packages document: the laws of `Packages` can be met.
use r7z.Prelude.{
  ℕ, ◌<◌, ◌≡◌, refl, Option, none, some, List, [], ◌∷◌, length, take, drop, ok, err, if◌then◌else◌,
  leb, ◌==◌, ==_iff, arith, Bool-cases, inl, inr,
}
use r7z.Nom.{Bytes, IResult, error, eof, from_le_bytes32}
use r7z.Packages.{Packages}
use r7z.Property.Codes.{Property, to_u8}

abbrev take_bytes : ℕ → Bytes → IResult Bytes
take_bytes n input =
    if leb n (length input) then ok (drop n input, take n input) else err (error input eof)

abbrev first_u8 : Bytes → IResult ℕ
first_u8 [] = err (error [] eof)
first_u8 (b ∷ rest) = ok (rest, b)

abbrev first_u32 : Bytes → IResult ℕ
first_u32 (a ∷ b ∷ c ∷ d ∷ rest) = ok (rest, from_le_bytes32 a b c d)
first_u32 input = err (error input eof)

pub first_u32_short : (input : Bytes) → length input < 4 → first_u32 input ≡ err (error input eof)
first_u32_short [] h = refl
first_u32_short (a ∷ []) h = refl
first_u32_short (a ∷ b ∷ []) h = refl
first_u32_short (a ∷ b ∷ c ∷ []) h = refl
first_u32_short (a ∷ b ∷ c ∷ d ∷ rest) h = absurd (omega arith)

abbrev all_tags : List Property
all_tags =
    Property.end ∷ Property.header ∷ Property.archive_properties ∷ Property.additional_streams_info
    ∷ Property.main_streams_info ∷ Property.files_info ∷ Property.pack_info ∷ Property.unpack_info
    ∷ Property.sub_streams_info ∷ Property.size ∷ Property.crc ∷ Property.folder
    ∷ Property.coders_unpack_size ∷ Property.num_unpack_stream ∷ Property.empty_stream
    ∷ Property.empty_file ∷ Property.anti ∷ Property.name ∷ Property.ctime ∷ Property.atime
    ∷ Property.mtime ∷ Property.attributes ∷ Property.comment ∷ Property.encoded_header
    ∷ Property.start_pos ∷ Property.dummy ∷ []

unfoldable pub find_code : List Property → ℕ → Option Property
unfolding to_u8
find_code [] b = none
find_code (p ∷ ps) b = if to_u8 p == b then some p else find_code ps b

pub find_code-to_u8 : (p : Property) → find_code all_tags (to_u8 p) ≡ some p
unfolding find_code
find_code-to_u8 Property.end = refl
find_code-to_u8 _ = refl

pub find_code_sound :
    (ps : List Property) (b : ℕ) (p : Property) → find_code ps b ≡ some p → b ≡ to_u8 p
unfolding find_code
find_code_sound [] b p e = cc
find_code_sound (q ∷ ps) b p e = elim (Bool-cases (to_u8 q == b)) [
  | inl hit ↦ ground (arith, ==_iff (to_u8 q) b, rw hit at e)
  | inr miss ↦ find_code_sound ps b p (rw miss at e)
]

instance abbrev pub bundle : Packages
bundle = record {
  take_complete = take_bytes;
  le_u8 = first_u8;
  le_u32 = first_u32;
  property_from_u8 = find_code all_tags;
  array_try_from = λ cap xs. if leb (length xs) cap then some xs else none;
  take_complete_lem = λ n input. refl;
  le_u8-nil = refl;
  le_u8-cons = λ b rest. refl;
  le_u32-short = first_u32_short;
  le_u32-cons = λ a b c d rest. refl;
  property_from_u8-to_u8 = find_code-to_u8;
  to_u8_of_from_u8 = find_code_sound all_tags;
  array_try_from_lem = λ cap xs. refl;
}
