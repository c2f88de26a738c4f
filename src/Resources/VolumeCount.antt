-- ===== src/Resources/VolumeCount.antt =====
-- src/resources.rs: `VolumeCountBudget`.
use r7z.Prelude.{ℕ, Option, none, some, ok, err, if◌then◌else◌, checked_add}
use r7z.Errors.{resource_limit_exceeded, archive_volume_count}
use r7z.Resources.{VolumeCountBudget, Outcome, exceeds, or_max}

abbrev admit : VolumeCountBudget → Option ℕ → Outcome VolumeCountBudget (Unit {0})
admit s none = (err (resource_limit_exceeded archive_volume_count (or_max s.limit)), s)
admit s (some n) =
    if exceeds s.limit n
    then (err (resource_limit_exceeded archive_volume_count (or_max s.limit)), s)
    else (ok tt, record s { created = n })

unfoldable pub charge : VolumeCountBudget → ℕ → Outcome VolumeCountBudget (Unit {0})
charge s count = admit s (checked_add s.created count)
