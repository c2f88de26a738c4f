-- ===== src/Operation.antt =====
-- src/operation.rs: cancellation and progress of one archive operation. The flag that the clones of a
-- control share is one field of the control. A callback is the decision to break that it returns, and
-- `calls` are the arguments of the calls that were made of it, the last one first.
pub mod Laws
use r7z.Prelude.{
  ℕ, ◌+◌, ◌-◌, ◌*◌, ◌^◌, Bool, true, false, ◌||◌, Option, none, some, List, [], ◌∷◌, Result, ok,
  err, out_of_fuel, ◌>>=◌, length, if◌then◌else◌, ltb, leb, word_mod,
}
use r7z.Errors.{R7zError, cancelled}
use Prim.Native.Nat.{min}

-- `CHECK_INTERVAL`.
abbrev pub check_interval : ℕ
check_interval = 64 * 1024

pub data OperationPhase : Type 0 where
  read_phase write_phase copy_output : OperationPhase

pub record OperationProgress : Type 0 where
  pub phase : OperationPhase
  pub bytes_processed : ℕ

pub data ReadVerification : Type 0 where
  complete_folders selected_entries incomplete : ReadVerification

unfoldable pub combine : ReadVerification → ReadVerification → ReadVerification
combine incomplete other = incomplete
combine selected_entries incomplete = incomplete
combine complete_folders incomplete = incomplete
combine selected_entries selected_entries = selected_entries
combine selected_entries complete_folders = selected_entries
combine complete_folders selected_entries = selected_entries
combine complete_folders complete_folders = complete_folders

pub record OperationControl : Type 0 where
  pub is_cancelled : Bool
  pub progress : Option (OperationProgress → Bool)
  pub calls : List OperationProgress

abbrev pub cancel : OperationControl → OperationControl
cancel control = record control { is_cancelled = true }

-- `OperationControl::check`
abbrev pub check_control : OperationControl → Result R7zError (Unit {0})
check_control control = if control.is_cancelled then err cancelled else ok tt

pub record OperationMonitor : Type 0 where
  pub phase : OperationPhase
  pub control : Option OperationControl
  pub processed : ℕ
  pub reported : ℕ

-- `OperationMonitor::new`
abbrev pub new_monitor : Option OperationControl → OperationMonitor
new_monitor control = record { phase = read_phase; control = control; processed = 0; reported = 0 }

unfoldable pub check : OperationMonitor → Result R7zError (Unit {0})
check m = elim m.control [ none ↦ ok tt | some control ↦ check_control control ]

abbrev pub for_phase : OperationMonitor → OperationPhase → OperationMonitor
for_phase m phase = record m { phase = phase }

unfoldable pub buffer_size : OperationMonitor → ℕ → ℕ
buffer_size m requested = elim m.control [
  | none ↦ requested
  | some control ↦ min requested check_interval
]

-- `u64::saturating_add`
abbrev pub saturating_add : ℕ → ℕ → ℕ
saturating_add a b = min (a + b) (word_mod - 1)

-- Whether `advance` reports at a byte count.
unfoldable pub is_due : OperationMonitor → ℕ → Bool
is_due m processed = leb check_interval (processed - m.reported)

-- `control.0.progress.as_ref().is_some_and(..)`: the decision of a callback, which is called.
abbrev pub ask : OperationControl → OperationProgress → Bool × OperationControl
ask control p = elim control.progress [
  | none ↦ (false, control)
  | some callback ↦ (callback p, record control { calls = p ∷ control.calls })
]

-- The report, when it is due: the callback may cancel the control.
unfoldable pub report :
    OperationMonitor → OperationControl → ℕ → OperationMonitor × OperationControl
report m control processed =
    let (broken, asked) = ask control (record { phase = m.phase; bytes_processed = processed }) in
    (record m { reported = processed }, if broken then cancel asked else asked)

unfoldable pub advance_controlled :
    OperationMonitor → OperationControl → ℕ → Result R7zError (Unit {0}) × OperationMonitor
unfolding is_due report
advance_controlled m control processed =
    let (m', control') = if is_due m processed then report m control processed else (m, control) in
    (check_control control', record m' { processed = processed; control = some control' })

unfoldable pub advance : OperationMonitor → ℕ → Result R7zError (Unit {0}) × OperationMonitor
unfolding advance_controlled
advance m bytes = elim m.control [
  | none ↦ (ok tt, m)
  | some control ↦ advance_controlled m control (saturating_add m.processed bytes)
]

-- A `Read`: what is left of it, and the bytes that a call delivers at a buffer size.
abbrev pub Reader {ℓ} : Type ℓ → Type ℓ
Reader S = S → ℕ → Result R7zError (List ℕ) × S

module _ {ℓ} {S : Type ℓ} (reader : Reader S) where
  -- `OperationMonitor::read`: the bytes are those that the buffer holds behind the call.
  abbrev delivered :
      OperationMonitor
      → Result R7zError (List ℕ) × S
      → Result R7zError (List ℕ) × OperationMonitor × S
  delivered m (err e, source) = (err e, m, source)
  delivered m (out_of_fuel, source) = (out_of_fuel, m, source)
  delivered m (ok bytes, source) =
      let (counted, m') = advance m (length bytes) in (counted >>= λ _. ok bytes, m', source)

  unfoldable pub read : OperationMonitor → S → ℕ → Result R7zError (List ℕ) × OperationMonitor × S
  unfolding check buffer_size advance
  read m source size = elim (check m) [
    | err e ↦ (err e, m, source)
    | out_of_fuel ↦ (out_of_fuel, m, source)
    | ok _ ↦ delivered m (reader source (buffer_size m size))
  ]
