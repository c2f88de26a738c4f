-- ===== src/FilesInfo/RoundTrip/Stored.antt =====
-- src/write/header.rs: the names and times of entries, as the file block stores them.
use mathlib.Core.List.{flat_map}
use Prim.Native.Nat.{min}
use r7z.Prelude.{
  ℕ, ◌+◌, ◌*◌, ◌%◌, ◌/◌, ◌≡◌, refl, ap, Option, some, none, List, [], ◌∷◌, map, arith,
}
use r7z.Nom.{Bytes}
use r7z.Write.Files.{
  WriteEntry, SystemTime, since_epoch, before_epoch, system_time_to_filetime, max_u64, filetime,
  name_or, entry_name, unit_bytes, to_le_bytes, name_bytes,
}
use r7z.FilesInfo.Names.Laws.{name_block}

-- A raw name, or UTF-16 code units, the low byte first.
abbrev pub stored : List ℕ → Option Bytes → Bytes
stored units (some raw) = raw
stored units none = flat_map (λ unit. unit % 256 ∷ unit / 256 % 256 ∷ []) units

-- The name that an entry is stored by: its raw name if it has one, or its name.
abbrev pub stored_name : WriteEntry → Bytes
stored_name e = stored e.name e.raw_name

unit_bytes-flat_map :
    (units : List ℕ)
    → unit_bytes units ≡ flat_map (λ unit. unit % 256 ∷ unit / 256 % 256 ∷ []) units
unfolding unit_bytes to_le_bytes flat_map
unit_bytes-flat_map [] = refl
unit_bytes-flat_map (unit ∷ units) =
    ap (λ t. unit % 256 ∷ unit / 256 % 256 ∷ t) (unit_bytes-flat_map units)

name_or-stored : (units : List ℕ) (raw : Option Bytes) → name_or units raw ≡ stored units raw
name_or-stored units none = unit_bytes-flat_map units
name_or-stored units (some raw) = refl

pub entry_name-stored_name : (e : WriteEntry) → entry_name e ≡ stored_name e
entry_name-stored_name e = name_or-stored e.name e.raw_name

pub name_bytes-stored_names :
    (entries : List WriteEntry) → name_bytes entries ≡ name_block (map stored_name entries)
unfolding name_bytes
name_bytes-stored_names [] = refl
name_bytes-stored_names (e ∷ es) = rw (entry_name-stored_name e, name_bytes-stored_names es) refl

-- A time as hundreds of nanoseconds since 1601, as far as 64 bits hold it, and 0 before 1970.
abbrev pub stored_instant : SystemTime → ℕ
stored_instant (since_epoch secs nanos) =
    min ((secs + 11_644_473_600) * 10_000_000 + nanos / 100) max_u64
stored_instant (before_epoch secs nanos) = 0

abbrev pub stored_time : Option SystemTime → Option ℕ
stored_time none = none
stored_time (some t) = some (stored_instant t)

system_time_to_filetime-stored_instant :
    (t : SystemTime) → system_time_to_filetime t ≡ stored_instant t
unfolding system_time_to_filetime
system_time_to_filetime-stored_instant (since_epoch secs nanos) = omega arith
system_time_to_filetime-stored_instant (before_epoch secs nanos) = refl

filetime-stored_time : (t : Option SystemTime) → filetime t ≡ stored_time t
filetime-stored_time none = refl
filetime-stored_time (some t) = ap some (system_time_to_filetime-stored_instant t)

pub times-stored :
    (time : WriteEntry → Option SystemTime) (entries : List WriteEntry)
    → map (λ e. filetime (time e)) entries ≡ map (λ e. stored_time (time e)) entries
times-stored time [] = refl
times-stored time (e ∷ es) = rw (filetime-stored_time (time e), times-stored time es) refl
