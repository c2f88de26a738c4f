-- ===== src/Resources/OpenVolumes.antt =====
-- src/resources.rs: `OpenVolumeBudget`.
use r7z.Prelude.{ℕ, ◌-◌, Option, none, some, ok, err, if◌then◌else◌, ltb, checked_add}
use r7z.Errors.{resource_limit_exceeded, open_archive_volumes}
use r7z.Resources.{OpenVolumeBudget, Outcome}

abbrev admit : OpenVolumeBudget → Option ℕ → Outcome OpenVolumeBudget (Unit {0})
admit s none = (err (resource_limit_exceeded open_archive_volumes s.limit), s)
admit s (some n) =
    if ltb s.limit n
    then (err (resource_limit_exceeded open_archive_volumes s.limit), s)
    else (ok tt, record s { open_count = n })

unfoldable pub charge : OpenVolumeBudget → Outcome OpenVolumeBudget (Unit {0})
charge s = admit s (checked_add s.open_count 1)

unfoldable pub release : OpenVolumeBudget → OpenVolumeBudget
release s = record s { open_count = s.open_count - 1 }
