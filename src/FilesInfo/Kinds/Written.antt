-- ===== src/FilesInfo/Kinds/Written.antt =====
-- src/write/header.rs and src/files_info.rs: the kind that is read is the kind that was written.
use r7z.Prelude.{
  ℕ, zero, suc, ◌+◌, ◌-◌, ◌≤◌, ◌≡◌, refl, sym, ap, ◌∙◌, Bool, true, false, not, ◌&&◌, Option, none,
  some, List, [], ◌∷◌, map, length, get_elem?, if◌then◌else◌, arith, Bool-cases, inl, inr,
}
use r7z.Nom.{Bytes}
use r7z.Parsers.{bitmap_is_set}
use r7z.Write.Bitmap.Laws.{flag, bitmap_is_set-bools_to_bytes}
use r7z.Write.Streams.Crcs.{any_some}
use r7z.Write.Files.{WriteEntry, any, no_stream_flags, empty_flags}
use r7z.Write.Files
use r7z.FilesInfo.{ordinals_from, empty_stream_ordinals}
use r7z.FilesInfo.RoundTrip.Shape.{described}
use r7z.FilesInfo.RoundTrip.Blocks.{optional_bits, optional_values}
use r7z.FilesInfo.Kinds.{
  EntryKind, file, symlink, empty_file, empty_symlink, directory, anti, entry_kind, kind_of,
  is_anti, is_empty_file, is_empty_stream, is_symlink, is_symlink_mode, empty_stream_ordinal,
  flag_of, flatten,
}

flag-none : (flags : List Bool) (i : ℕ) → any flags ≡ false → flag flags i ≡ false
flag-none [] i h = refl
flag-none (b ∷ bs) zero h = ground arith
flag-none (b ∷ bs) (suc i) h = flag-none bs i (ground arith)

-- A bitmap that is left out has no bit set.
optional_bits-flag :
    (flags : List Bool) (i : ℕ) → bitmap_is_set (optional_bits flags) i ≡ flag flags i
unfolding bitmap_is_set
optional_bits-flag flags i = elim (Bool-cases (any flags)) [
  | inl present ↦ rw present (bitmap_is_set-bools_to_bytes flags i)
  | inr absent ↦ rw (absent, flag-none flags i absent) refl
]

-- How many entries without a stream stand before entry `i`, counted from `next` on, if it is one.
abbrev ordinal : ℕ → List WriteEntry → ℕ → Option ℕ
ordinal next [] i = none
ordinal next (e ∷ es) zero = if Files.has_stream e.stream then none else some next
ordinal next (e ∷ es) (suc i) = ordinal (if Files.has_stream e.stream then next else next + 1) es i

-- The ordinals of a bitmap whose bits from `from` on are those of the entries.
ordinals_from-ordinal :
    (bits : Bytes) (from next : ℕ) (es : List WriteEntry) (i : ℕ) (e : WriteEntry)
    → ((j : ℕ) → bitmap_is_set bits (from + j) ≡ flag (no_stream_flags es) j)
    → get_elem? es i ≡ some e
    → get_elem? (ordinals_from bits from next (length es)) i ≡ some (ordinal next es i)
unfolding ordinals_from no_stream_flags
ordinals_from-ordinal bits from next [] i e h found = cc
ordinals_from-ordinal bits from next (x ∷ es) zero e h found =
    let now : bitmap_is_set bits from ≡ not (Files.has_stream x.stream) =
      ap (bitmap_is_set bits) (omega arith) ∙ h 0 in
    elim (Bool-cases (Files.has_stream x.stream)) [
      | inl s ↦ rw (now, s) refl
      | inr s ↦ rw (now, s) refl
    ]
ordinals_from-ordinal bits from next (x ∷ es) (suc i) e h found =
    let now : bitmap_is_set bits from ≡ not (Files.has_stream x.stream) =
      ap (bitmap_is_set bits) (omega arith) ∙ h 0 in
    let later = λ (j : ℕ).
      let shift : from + 1 + j ≡ from + suc j = omega arith in
      ap (bitmap_is_set bits) shift ∙ h (suc j) in
    elim (Bool-cases (Files.has_stream x.stream)) [
      | inl s ↦ rw (now, s) (ordinals_from-ordinal bits (from + 1) next es i e later found)
      | inr s ↦ rw (now, s) (ordinals_from-ordinal bits (from + 1) (next + 1) es i e later found)
    ]

-- The flag under the ordinal of an entry is the one of that entry.
abbrev flag_under : List Bool → ℕ → Option ℕ → Bool
flag_under flags next none = false
flag_under flags next (some k) = flag flags (k - next)

ordinal_le : (next : ℕ) (es : List WriteEntry) (i k : ℕ) → ordinal next es i ≡ some k → next ≤ k
ordinal_le next [] i k h = cc
ordinal_le next (x ∷ es) zero k h = ground arith
ordinal_le next (x ∷ es) (suc i) k h = elim (Bool-cases (Files.has_stream x.stream)) [
  | inl s ↦ ordinal_le next es i k (rw s at h)
  | inr s ↦ omega (arith, ordinal_le (next + 1) es i k (rw s at h))
]

flag_under_later :
    (v : Bool) (flags : List Bool) (next : ℕ) (o : Option ℕ)
    → ((k : ℕ) → o ≡ some k → next + 1 ≤ k)
    → flag_under (v ∷ flags) next o ≡ flag_under flags (next + 1) o
flag_under_later v flags next none h = refl
flag_under_later v flags next (some k) h =
    let bound = h k refl in
    let e : k - next ≡ suc (k - (next + 1)) = omega arith in ap (flag (v ∷ flags)) e

empty_flags-ordinal :
    (test : Files.EntryKind → Bool) (next : ℕ) (es : List WriteEntry) (i : ℕ) (e : WriteEntry)
    → get_elem? es i ≡ some e
    → flag_under (empty_flags test es) next (ordinal next es i)
      ≡ (not (Files.has_stream e.stream) && test e.kind)
unfolding empty_flags
empty_flags-ordinal test next [] i e h = cc
empty_flags-ordinal test next (x ∷ es) zero e h =
    let same : x ≡ e = cc in
    let start : next - next ≡ 0 = omega arith in
    rw (← same) (elim (Bool-cases (Files.has_stream x.stream)) [
      | inl s ↦ rw s refl
      | inr s ↦ rw s (ap (flag (test x.kind ∷ empty_flags test es)) start)
    ])
empty_flags-ordinal test next (x ∷ es) (suc i) e h = elim (Bool-cases (Files.has_stream x.stream)) [
  | inl s ↦ rw s (empty_flags-ordinal test next es i e h)
  | inr s ↦ rw s (
      flag_under_later (test x.kind) (empty_flags test es) next (ordinal (next + 1) es i)
        (ordinal_le (next + 1) es i)
      ∙ empty_flags-ordinal test (next + 1) es i e h)
]

flag_of-flag_under :
    (flags : List Bool) (o : Option ℕ) → flag_of (optional_bits flags) o ≡ flag_under flags 0 o
flag_of-flag_under flags none = refl
flag_of-flag_under flags (some k) =
    let e : k - 0 ≡ k = omega arith in optional_bits-flag flags k ∙ ap (flag flags) (sym e)

no_stream-flag :
    (es : List WriteEntry) (i : ℕ) (e : WriteEntry)
    → get_elem? es i ≡ some e
    → flag (no_stream_flags es) i ≡ not (Files.has_stream e.stream)
unfolding no_stream_flags
no_stream-flag [] i e h = cc
no_stream-flag (x ∷ es) zero e h =
    let same : x ≡ e = cc in ap (λ (t : WriteEntry). not (Files.has_stream t.stream)) same
no_stream-flag (x ∷ es) (suc i) e h = no_stream-flag es i e h

abbrev attributes_of : WriteEntry → Option ℕ
attributes_of e = e.meta.attributes

get_elem?-attributes :
    (es : List WriteEntry) (i : ℕ) (e : WriteEntry)
    → get_elem? es i ≡ some e
    → get_elem? (map attributes_of es) i ≡ some e.meta.attributes
get_elem?-attributes [] i e h = cc
get_elem?-attributes (x ∷ es) zero e h =
    let same : x ≡ e = cc in ap (λ (t : WriteEntry). some t.meta.attributes) same
get_elem?-attributes (x ∷ es) (suc i) e h = get_elem?-attributes es i e h

no_attributes :
    (es : List WriteEntry) (i : ℕ) (e : WriteEntry)
    → any_some (map attributes_of es) ≡ false
    → get_elem? es i ≡ some e
    → none ≡ e.meta.attributes
no_attributes [] i e none' h = cc
no_attributes (x ∷ es) zero e none' h = let same : x ≡ e = cc in rw (← same) (ground arith)
no_attributes (x ∷ es) (suc i) e none' h = no_attributes es i e (ground arith) h

-- The attributes of an entry, whether or not any are written.
attribute_of :
    (es : List WriteEntry) (i : ℕ) (e : WriteEntry)
    → get_elem? es i ≡ some e
    → flatten (get_elem? (optional_values (map attributes_of es)) i) ≡ e.meta.attributes
attribute_of es i e h = elim (Bool-cases (any_some (map attributes_of es))) [
  | inl present ↦ rw present (ap flatten (get_elem?-attributes es i e h))
  | inr absent ↦ rw absent (no_attributes es i e absent h)
]

-- The kind that an entry is written with: symlinks by their attributes, entries with a stream as
-- files.
abbrev pub streamed_kind : Bool → EntryKind
streamed_kind true = symlink
streamed_kind false = file

abbrev pub empty_kind : Files.EntryKind → Bool → EntryKind
empty_kind Files.anti link = anti
empty_kind Files.file true = empty_symlink
empty_kind Files.directory true = empty_symlink
empty_kind Files.file false = empty_file
empty_kind Files.directory false = directory

abbrev pub written_kind : WriteEntry → EntryKind
written_kind e =
    let link = is_symlink_mode e.meta.attributes in
    if Files.has_stream e.stream then streamed_kind link else empty_kind e.kind link

kind_of-written_kind :
    (stream link : Bool) (kind : Files.EntryKind)
    → kind_of
        (not stream && Files.is_anti kind)
        (not stream)
        link
        (not stream && Files.is_file kind)
      ≡ (if stream then streamed_kind link else empty_kind kind link)
unfolding kind_of
kind_of-written_kind stream link kind = ground arith

-- In the files that a written block describes, every entry has the kind that it was written with.
pub entry_kind-described :
    (entries : List WriteEntry) (i : ℕ) (e : WriteEntry)
    → get_elem? entries i ≡ some e
    → entry_kind (described entries) i ≡ written_kind e
unfolding entry_kind is_anti is_empty_stream is_symlink is_empty_file empty_stream_ordinal
    empty_stream_ordinals
entry_kind-described entries i e h =
    let ordinals =
      ordinals_from-ordinal (optional_bits (no_stream_flags entries)) 0 0 entries i e
        (λ j.
          ap (bitmap_is_set (optional_bits (no_stream_flags entries))) (omega arith)
          ∙ optional_bits-flag (no_stream_flags entries) j)
        h in
    let empty = optional_bits-flag (no_stream_flags entries) i ∙ no_stream-flag entries i e h in
    let anti' =
      flag_of-flag_under (empty_flags Files.is_anti entries) (ordinal 0 entries i)
      ∙ empty_flags-ordinal Files.is_anti 0 entries i e h in
    let file' =
      flag_of-flag_under (empty_flags Files.is_file entries) (ordinal 0 entries i)
      ∙ empty_flags-ordinal Files.is_file 0 entries i e h in
    rw (ordinals, anti', file', empty, attribute_of entries i e h)
      (kind_of-written_kind (Files.has_stream e.stream) (is_symlink_mode e.meta.attributes) e.kind)
