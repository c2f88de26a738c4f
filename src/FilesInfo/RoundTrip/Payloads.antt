-- ===== src/FilesInfo/RoundTrip/Payloads.antt =====
-- src/files_info.rs: what the loop does with each property that is written.
use r7z.Prelude.{
  ℕ, suc, ◌+◌, ◌≡◌, refl, ap, Bool, false, Option, none, some, List, [], ◌∷◌, ◌++◌, map, length,
  All, ok, arith, ◌^◌, ◌<◌, Bool-cases, inl, inr, append-nil,
}
use r7z.Nom.{Bytes}
use r7z.Property.{Property}
use r7z.Slice.{Slice, Within}
use r7z.Slice.Laws.{bytes_subslice-Within, sub_slice_at}
use r7z.Write.Files.{
  WriteEntry, SystemTime, since_epoch, before_epoch, system_time_to_filetime, filetime, entry_name,
  name_bytes, has_stream, EntryKind, empty_flags, no_stream_flags, any, optional_flags,
  write_empty_properties, is_file, is_anti,
}
use r7z.FilesInfo.{FilesInfo, read_property, defined_u64, defined_u32}
use r7z.FilesInfo.Names.{validate_name_data}
use r7z.FilesInfo.Names.Laws.{name_block, true_ne_false}
use r7z.FilesInfo.Names.Written.{IsName, validate_name_data-name_block}
use r7z.FilesInfo.Values.{property_data}
use r7z.FilesInfo.Values.RoundTrip.{
  Fits, values_payload, parse_defined_u64_values-values_payload,
  parse_defined_u32_values-values_payload,
}

pub length-map {ℓ κ} :
    {A : Type ℓ} {B : Type κ} (f : A → B) (xs : List A) → length (map f xs) ≡ length xs
length-map f [] = refl
length-map f (x ∷ xs) = ap suc (length-map f xs)

-- A time of 64 bits, whatever the clock says.
pub filetime_fits : (t : SystemTime) → system_time_to_filetime t < 256 ^ 8
unfolding system_time_to_filetime
filetime_fits (since_epoch secs nanos) = omega arith
filetime_fits (before_epoch secs nanos) = omega arith

pub filetimes_fit :
    (f : WriteEntry → Option SystemTime) (entries : List WriteEntry)
    → All (Fits 8) (map (λ e. filetime (f e)) entries)
filetimes_fit f [] = tt
filetimes_fit f (e ∷ es) = (fits (f e), filetimes_fit f es)
  where
    fits : (t : Option SystemTime) → Fits 8 (filetime t)
    fits none = tt
    fits (some t) = filetime_fits t

pub name_bytes-name_block :
    (entries : List WriteEntry) → name_bytes entries ≡ name_block (map entry_name entries)
unfolding name_bytes
name_bytes-name_block [] = refl
name_bytes-name_block (e ∷ es) = ap (λ t. entry_name e ++ (0 ∷ 0 ∷ t)) (name_bytes-name_block es)

-- The flags of the entries without a stream, when every entry has one.
pub empty_flags-nil :
    (test : EntryKind → Bool) (entries : List WriteEntry)
    → any (no_stream_flags entries) ≡ false
    → empty_flags test entries ≡ []
unfolding empty_flags no_stream_flags
empty_flags-nil test [] h = refl
empty_flags-nil test (e ∷ es) h = elim (Bool-cases (has_stream e.stream)) [
  | inl stream ↦ rw stream (empty_flags-nil test es (rw stream at h))
  | inr none' ↦ absurd (true_ne_false (rw none' at h))
]

-- The three bitmaps, each left out when it has no bit set.
pub write_empty_properties-optional_flags :
    (entries : List WriteEntry)
    → write_empty_properties entries
      ≡ optional_flags 0x0e (no_stream_flags entries)
        ++ (optional_flags 0x0f (empty_flags is_file entries)
            ++ optional_flags 0x10 (empty_flags is_anti entries))
unfolding write_empty_properties
write_empty_properties-optional_flags entries = elim (Bool-cases (any (no_stream_flags entries))) [
  | inl some' ↦ rw some' refl
  | inr none' ↦
      rw (none', empty_flags-nil is_file entries none', empty_flags-nil is_anti entries none') refl
]

module _ (backing : Slice) (external_data : List Bytes) (n : ℕ) where
  defined_u64-payload :
      (inp : Bytes) (ptr : ℕ) (values : List (Option ℕ))
      → length values ≡ n
      → All (Fits 8) values
      → Within backing (record { ptr = ptr; bytes = values_payload 8 values })
      → defined_u64 n backing external_data inp
          (record { ptr = ptr; bytes = values_payload 8 values })
        ≡ ok values
  unfolding defined_u64
  defined_u64-payload inp ptr values e fits w =
      rw (← e) (parse_defined_u64_values-values_payload backing external_data inp ptr values w fits)

  defined_u32-payload :
      (inp : Bytes) (ptr : ℕ) (values : List (Option ℕ))
      → length values ≡ n
      → All (Fits 4) values
      → Within backing (record { ptr = ptr; bytes = values_payload 4 values })
      → defined_u32 n backing external_data inp
          (record { ptr = ptr; bytes = values_payload 4 values })
        ≡ ok values
  unfolding defined_u32
  defined_u32-payload inp ptr values e fits w =
      rw (← e) (parse_defined_u32_values-values_payload backing external_data inp ptr values w fits)

  module _ (values : List (Option ℕ)) (files : FilesInfo) (inp : Bytes) (ptr : ℕ)
      (e : length values ≡ n) where
    abbrev block8 : Slice
    block8 = record { ptr = ptr; bytes = values_payload 8 values }

    pub read-ctime :
        All (Fits 8) values
        → Within backing block8
        → read_property n backing external_data Property.ctime inp block8 files
          ≡ ok (record files { ctimes = values })
    unfolding read_property
    read-ctime fits w = rw (defined_u64-payload inp ptr values e fits w) refl

    pub read-atime :
        All (Fits 8) values
        → Within backing block8
        → read_property n backing external_data Property.atime inp block8 files
          ≡ ok (record files { atimes = values })
    unfolding read_property
    read-atime fits w = rw (defined_u64-payload inp ptr values e fits w) refl

    pub read-mtime :
        All (Fits 8) values
        → Within backing block8
        → read_property n backing external_data Property.mtime inp block8 files
          ≡ ok (record files { mtimes = values })
    unfolding read_property
    read-mtime fits w = rw (defined_u64-payload inp ptr values e fits w) refl

    pub read-start_pos :
        All (Fits 8) values
        → Within backing block8
        → read_property n backing external_data Property.start_pos inp block8 files
          ≡ ok (record files { start_positions = values })
    unfolding read_property
    read-start_pos fits w = rw (defined_u64-payload inp ptr values e fits w) refl

    pub read-attributes :
        All (Fits 4) values
        → Within backing (record { ptr = ptr; bytes = values_payload 4 values })
        → read_property n backing external_data Property.attributes inp
            (record { ptr = ptr; bytes = values_payload 4 values })
            files
          ≡ ok (record files { attributes = values })
    unfolding read_property
    read-attributes fits w = rw (defined_u32-payload inp ptr values e fits w) refl

  -- The names, behind the byte that says that they are in the block.
  pub read-name :
      (entries : List WriteEntry) (files : FilesInfo) (inp : Bytes) (ptr : ℕ)
      → length entries ≡ n
      → All IsName (map entry_name entries)
      → Within backing (record { ptr = ptr; bytes = 0 ∷ name_bytes entries })
      → read_property n backing external_data Property.name inp
          (record { ptr = ptr; bytes = 0 ∷ name_bytes entries })
          files
        ≡ ok (record files { name_data = name_bytes entries })
  unfolding read_property property_data
  read-name entries files inp ptr e names w =
      let accepted : validate_name_data (name_bytes entries) n inp ≡ ok tt =
        rw (name_bytes-name_block entries, ← e, ← length-map entry_name entries)
          (validate_name_data-name_block (map entry_name entries) inp names) in
      let part =
        sub_slice_at backing (record { ptr = ptr; bytes = 0 ∷ name_bytes entries }) (ptr + 1)
          (0 ∷ []) (name_bytes entries) [] w (rw (append-nil (name_bytes entries)) refl) refl in
      rw
        (
          bytes_subslice-Within backing (record { ptr = ptr + 1; bytes = name_bytes entries }) inp
              part,
          accepted,
        )
        refl
