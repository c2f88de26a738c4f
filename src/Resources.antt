-- ===== src/Resources.antt =====
-- src/resources.rs: the budgets of one archive operation. A method that takes `&mut self` gives the
-- budget back beside its result; the byte and cycle newtypes are their numbers, and the limits of
-- `NonZeroUsize` are numbers.
pub mod Kdf
pub mod TemporaryStorage
pub mod RetainedOutput
pub mod OpenVolumes
pub mod VolumeCount
pub mod Operation
pub mod Totals
pub mod Safety
use r7z.Prelude.{
  Bool, true, false, ℕ, ◌+◌, ◌-◌, ◌*◌, Option, none, some, Result, ok, err, out_of_fuel, map_err,
  ◌>>=◌, if◌then◌else◌, ltb, word_mod, checked_add,
}
use r7z.Errors.{
  R7zError, resource_limit_exceeded, Resource, aes_kdf_cycles, temporary_storage, retained_output,
  open_archive_volumes, archive_volume_count,
}

-- `u64::MAX` and `usize::MAX`.
abbrev pub max_u64 : ℕ
max_u64 = word_mod - 1

-- `Option::unwrap_or(u64::MAX)`.
abbrev pub or_max : Option ℕ → ℕ
or_max none = max_u64
or_max (some limit) = limit

-- `limit.is_some_and(|limit| total > limit)`.
abbrev pub exceeds : Option ℕ → ℕ → Bool
exceeds none total = false
exceeds (some limit) total = ltb limit total

-- What a method on `&mut self` leaves: its result, and the state behind `self`.
abbrev pub Outcome {ℓ κ} : Type ℓ → Type κ → Type (ℓ ⊔ κ)
Outcome S A = Result R7zError A × S

-- `self = step?; Ok(())`.
abbrev pub assign {ℓ} : {S : Type ℓ} → S → Result R7zError S → Outcome S (Unit {0})
assign s (ok t) = (ok tt, t)
assign s (err e) = (err e, s)
assign s out_of_fuel = (out_of_fuel, s)

-- `OperationBudget::next_total`: without a limit the sum saturates.
abbrev overflowed : Resource → Option ℕ → Result R7zError ℕ
overflowed resource none = ok max_u64
overflowed resource (some limit) = err (resource_limit_exceeded resource limit)

abbrev within_total : Resource → Option ℕ → Option ℕ → Result R7zError ℕ
within_total resource limit none = overflowed resource limit
within_total resource limit (some total) =
    if exceeds limit total then err (resource_limit_exceeded resource (or_max limit)) else ok total

unfoldable pub next_total : ℕ → ℕ → Option ℕ → Resource → Result R7zError ℕ
next_total used amount limit resource = within_total resource limit (checked_add used amount)

-- `KdfBudget`, `TemporaryStorageBudget` and `RetainedOutputBudget`: a counter and its limit.
pub record KdfBudget : Type 0 where
  pub used : ℕ
  pub limit : Option ℕ

pub record TemporaryStorageBudget : Type 0 where
  pub written : ℕ
  pub limit : Option ℕ

pub record RetainedOutputBudget : Type 0 where
  pub retained : ℕ
  pub limit : Option ℕ

pub record OpenVolumeBudget : Type 0 where
  pub open_count : ℕ
  pub limit : ℕ

pub record VolumeCountBudget : Type 0 where
  pub created : ℕ
  pub limit : Option ℕ
