-- ===== src/Resources/Operation.antt =====
-- src/resources.rs: `ResourceLimits` and the `OperationBudget` that the nested steps of one archive
-- operation share.
use r7z.Prelude.{
  ℕ, ◌-◌, ◌*◌, Bool, true, false, Option, none, some, Result, ok, err, out_of_fuel, ◌>>=◌,
  if◌then◌else◌, ltb, checked_add,
}
use Prim.Native.Nat.{min, max}
use r7z.Errors.{
  R7zError, resource_limit_exceeded, limit_exceeded, password_required, metadata,
  total_decoded_output, decoder_working_set, aes_kdf_cycles,
}
use r7z.Operation.{OperationControl, OperationMonitor, write_phase, new_monitor, for_phase}
use r7z.Resources.{
  KdfBudget, TemporaryStorageBudget, RetainedOutputBudget, OpenVolumeBudget, VolumeCountBudget,
  Outcome, assign, exceeds, or_max, max_u64,
}
use r7z.Resources.Kdf
use r7z.Resources.RetainedOutput
use r7z.Resources.OpenVolumes

pub record ResourceLimits : Type 0 where
  pub max_signature_scan_bytes : ℕ
  pub max_metadata_bytes : ℕ
  pub max_decoder_working_set_bytes : Option ℕ
  pub max_encoder_working_set_bytes : Option ℕ
  pub max_total_decoded_bytes : Option ℕ
  pub max_total_kdf_cycles : Option ℕ
  pub max_retained_output_bytes : Option ℕ
  pub max_temporary_storage_bytes : Option ℕ
  pub max_volume_count : Option ℕ
  pub max_open_volumes : ℕ

abbrev pub default_metadata_bytes : ℕ
default_metadata_bytes = 64 * 1024 * 1024

-- `ResourceLimits::default`
abbrev pub default_limits : ResourceLimits
default_limits = record {
  max_signature_scan_bytes = default_metadata_bytes;
  max_metadata_bytes = default_metadata_bytes;
  max_decoder_working_set_bytes = none;
  max_encoder_working_set_bytes = none;
  max_total_decoded_bytes = none;
  max_total_kdf_cycles = none;
  max_retained_output_bytes = none;
  max_temporary_storage_bytes = none;
  max_volume_count = none;
  max_open_volumes = 128;
}

pub record OperationBudget : Type 0 where
  pub monitor : OperationMonitor
  pub limits : ResourceLimits
  pub metadata_used : ℕ
  pub decoded : ℕ
  pub peak_decoder_working_set : ℕ
  pub kdf : KdfBudget
  pub storage : TemporaryStorageBudget
  pub retained : RetainedOutputBudget
  pub open_volumes : OpenVolumeBudget
  pub volume_count : VolumeCountBudget

unfoldable pub new : ResourceLimits → OperationBudget
new limits = record {
  monitor = new_monitor none;
  limits = limits;
  metadata_used = 0;
  decoded = 0;
  peak_decoder_working_set = 0;
  kdf = record { used = 0; limit = limits.max_total_kdf_cycles };
  storage = record { written = 0; limit = limits.max_temporary_storage_bytes };
  retained = record { retained = 0; limit = limits.max_retained_output_bytes };
  open_volumes = record { open_count = 0; limit = limits.max_open_volumes };
  volume_count = record { created = 0; limit = limits.max_volume_count };
}

unfoldable pub with_control : OperationBudget → Option OperationControl → OperationBudget
with_control s control = record s { monitor = new_monitor control }

-- `WriterBudgets`, with its `WriterOperation` and its `SpoolBudget` laid flat.
pub record WriterBudgets : Type 0 where
  pub kdf : KdfBudget
  pub monitor : OperationMonitor
  pub storage : TemporaryStorageBudget
  pub retained : RetainedOutputBudget
  pub open_volumes : OpenVolumeBudget
  pub volume_count : VolumeCountBudget

unfoldable pub into_writer_budgets : OperationBudget → WriterBudgets
into_writer_budgets s = record {
  kdf = s.kdf;
  monitor = for_phase s.monitor write_phase;
  storage = s.storage;
  retained = s.retained;
  open_volumes = s.open_volumes;
  volume_count = s.volume_count;
}

-- The subtractions are not checked in the source; `Safety` shows that they do not underflow.
unfoldable pub decoded_remaining : OperationBudget → Option ℕ
decoded_remaining s = elim s.limits.max_total_decoded_bytes [
  | none ↦ none
  | some limit ↦ some (limit - s.decoded)
]

unfoldable pub metadata_remaining : OperationBudget → ℕ
metadata_remaining s = s.limits.max_metadata_bytes - s.metadata_used

unfoldable pub metadata_limit_error : OperationBudget → R7zError
metadata_limit_error s = resource_limit_exceeded metadata s.limits.max_metadata_bytes

abbrev charge_metadata_total : OperationBudget → Option ℕ → Outcome OperationBudget (Unit {0})
charge_metadata_total s none = (err (metadata_limit_error s), s)
charge_metadata_total s (some used) =
    if ltb s.limits.max_metadata_bytes used
    then (err (metadata_limit_error s), s)
    else (ok tt, record s { metadata_used = used })

unfoldable pub charge_metadata : OperationBudget → ℕ → Outcome OperationBudget (Unit {0})
unfolding metadata_limit_error
charge_metadata s bytes = charge_metadata_total s (checked_add s.metadata_used bytes)

unfoldable pub map_metadata_error : OperationBudget → R7zError → R7zError
map_metadata_error s (limit_exceeded metadata) = metadata_limit_error s
map_metadata_error s error = error

unfoldable pub decoded_limit_error : OperationBudget → R7zError
decoded_limit_error s =
    resource_limit_exceeded total_decoded_output (or_max s.limits.max_total_decoded_bytes)

abbrev decoded_overflow : OperationBudget → Option ℕ → Result R7zError ℕ
decoded_overflow s none = ok max_u64
decoded_overflow s (some _) = err (decoded_limit_error s)

abbrev decoded_total : OperationBudget → Option ℕ → Result R7zError ℕ
decoded_total s none = decoded_overflow s s.limits.max_total_decoded_bytes
decoded_total s (some decoded) =
    if exceeds s.limits.max_total_decoded_bytes decoded
    then err (decoded_limit_error s)
    else ok decoded

unfoldable pub next_decoded : OperationBudget → ℕ → Result R7zError ℕ
unfolding decoded_limit_error
next_decoded s bytes = decoded_total s (checked_add s.decoded bytes)

unfoldable pub charge_decoded : OperationBudget → ℕ → Outcome OperationBudget (Unit {0})
unfolding next_decoded
charge_decoded s bytes = assign s (next_decoded s bytes >>= λ t. ok (record s { decoded = t }))

-- `matches!(error, PasswordRequired | ResourceLimitExceeded { resource: "AES KDF cycles", .. })`
unfoldable pub is_before_decoding : R7zError → Bool
is_before_decoding password_required = true
is_before_decoding (resource_limit_exceeded aes_kdf_cycles limit) = true
is_before_decoding error = false

module _ {ℓ} {T : Type ℓ} where
  -- The end of `with_eager_decoded_output`, behind `start(self)`.
  unfoldable pub settle : ℕ → Outcome OperationBudget T → Outcome OperationBudget T
  unfolding is_before_decoding
  settle next_total (ok output, s) = (ok output, record s { decoded = next_total })
  settle next_total (err error, s) =
      (err error, if is_before_decoding error then s else record s { decoded = next_total })
  settle next_total (out_of_fuel, s) = (out_of_fuel, s)

  unfoldable pub with_eager_decoded_output :
      OperationBudget
      → ℕ
      → (OperationBudget → Outcome OperationBudget T)
      → Outcome OperationBudget T
  unfolding next_decoded settle
  with_eager_decoded_output s bytes start = elim (next_decoded s bytes) [
    | ok next_total ↦ settle next_total (start s)
    | err error ↦ (err error, s)
    | out_of_fuel ↦ (out_of_fuel, s)
  ]

  abbrev behind_reservation :
      (OperationBudget → Outcome OperationBudget T)
      → OperationBudget
      → ℕ
      → Outcome RetainedOutputBudget (Unit {0})
      → Outcome OperationBudget T
  behind_reservation operation s bytes (err error, r) = (err error, record s { retained = r })
  behind_reservation operation s bytes (out_of_fuel, r) = (out_of_fuel, record s { retained = r })
  behind_reservation operation s bytes (ok _, r) =
      let (result, s') = operation (record s { retained = r }) in
      (result, record s' { retained = RetainedOutput.release s'.retained bytes })

  unfoldable pub with_retained_output_reservation :
      OperationBudget
      → ℕ
      → (OperationBudget → Outcome OperationBudget T)
      → Outcome OperationBudget T
  with_retained_output_reservation s bytes operation =
      behind_reservation operation s bytes (RetainedOutput.reserve s.retained bytes)

-- `codec::MAX_DECODER_WORKING_SET_BYTES`
abbrev pub max_decoder_working_set : ℕ
max_decoder_working_set = 512 * 1024 * 1024

abbrev pub working_set_limit : OperationBudget → ℕ
working_set_limit s = elim s.limits.max_decoder_working_set_bytes [
  | none ↦ max_decoder_working_set
  | some configured ↦ min configured max_decoder_working_set
]

unfoldable pub admit_decoder_working_set : OperationBudget → ℕ → Outcome OperationBudget (Unit {0})
admit_decoder_working_set s bytes =
    if ltb (working_set_limit s) bytes
    then (err (resource_limit_exceeded decoder_working_set (working_set_limit s)), s)
    else (ok tt, record s { peak_decoder_working_set = max s.peak_decoder_working_set bytes })

unfoldable pub charge_kdf_cycles : OperationBudget → ℕ → Outcome OperationBudget (Unit {0})
charge_kdf_cycles s cycles =
    let (result, kdf) = Kdf.charge s.kdf cycles in (result, record s { kdf = kdf })

unfoldable pub charge_open_volume : OperationBudget → Outcome OperationBudget (Unit {0})
charge_open_volume s =
    let (result, volumes) = OpenVolumes.charge s.open_volumes in
    (result, record s { open_volumes = volumes })

unfoldable pub release_open_volume : OperationBudget → OperationBudget
release_open_volume s = record s { open_volumes = OpenVolumes.release s.open_volumes }
