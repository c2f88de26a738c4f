-- ===== src/Operation/Laws.antt =====
-- src/operation.rs: pacing of the reports, and cancellation.
use mathlib.Core.Path.{subst}
use r7z.Prelude.{
  ℕ, ◌+◌, ◌-◌, ◌*◌, ◌≤◌, ◌<◌, ◌≡◌, refl, sym, true, Option, none, some, List, [], ◌∷◌, Result, err,
  length, Bool-cases, inl, inr, word_mod, arith,
}
use r7z.Errors.{R7zError, cancelled}
use r7z.Operation.{
  check_interval, OperationProgress, OperationControl, OperationMonitor, cancel, check,
  saturating_add, is_due, report, advance_controlled, advance, Reader, read, new_monitor,
}

-- What holds between two calls: less than one interval is processed and not yet reported.
pub record IsPaced (m : OperationMonitor) : Type 0 where
  pub reported_le : m.reported ≤ m.processed
  pub owed : m.processed - m.reported < check_interval
  pub is_u64 : m.processed < word_mod

pub advance-IsPaced : (m : OperationMonitor) (n : ℕ) → IsPaced m → IsPaced (advance m n).1
unfolding advance advance_controlled is_due report
advance-IsPaced m n h = ground arith

-- The calls of the callback that a monitor has made.
abbrev pub calls_of : OperationMonitor → List OperationProgress
calls_of m = elim m.control [ none ↦ [] | some control ↦ control.calls ]

-- A call is paid by the bytes that it reports.
advance-calls :
    (m : OperationMonitor) (n : ℕ)
    → IsPaced m
    → length (calls_of (advance m n).1) * check_interval + m.reported
      ≤ length (calls_of m) * check_interval + (advance m n).1.reported
unfolding advance advance_controlled is_due report
advance-calls m n h = ground arith

advance-processed : (m : OperationMonitor) (n : ℕ) → (advance m n).1.processed ≤ m.processed + n
unfolding advance advance_controlled is_due report
advance-processed m n = ground arith

-- A monitor that advances by one count after another.
unfoldable pub advance_all : OperationMonitor → List ℕ → OperationMonitor
advance_all m [] = m
advance_all m (n ∷ ns) = advance_all (advance m n).1 ns

abbrev pub total : List ℕ → ℕ
total [] = 0
total (n ∷ ns) = n + total ns

calls_paid :
    (m : OperationMonitor) (ns : List ℕ)
    → IsPaced m
    → length (calls_of (advance_all m ns)) * check_interval + m.reported
      ≤ length (calls_of m) * check_interval + (m.processed + total ns)
unfolding advance_all
calls_paid m [] h = omega (arith, h.reported_le)
calls_paid m (n ∷ ns) h = omega (
  arith,
  advance-calls m n h,
  advance-processed m n,
  calls_paid (advance m n).1 ns (advance-IsPaced m n h),
)

-- However the bytes of an operation are counted, its callback is called at most once per 64 KiB of
-- them, cancelled or not.
pub calls_of-advance_all :
    (control : Option OperationControl) (ns : List ℕ)
    → length (calls_of (advance_all (new_monitor control) ns)) * check_interval
      ≤ length (calls_of (new_monitor control)) * check_interval + total ns
calls_of-advance_all control ns = omega (arith, calls_paid (new_monitor control) ns (ground arith))

-- The control of a monitor has been cancelled.
abbrev pub IsCancelled : OperationMonitor → Type 0
IsCancelled m =
    (control : OperationControl) × (m.control ≡ some control) × (control.is_cancelled ≡ true)

check_of_IsCancelled : (m : OperationMonitor) → IsCancelled m → check m ≡ err cancelled
unfolding check
check_of_IsCancelled m h = ground arith

report_of_cancelled :
    (m : OperationMonitor) (control : OperationControl) (processed : ℕ)
    → control.is_cancelled ≡ true
    → (report m control processed).1.is_cancelled ≡ true
unfolding report
report_of_cancelled m control processed h = ground arith

advance_controlled_of_cancelled :
    (m : OperationMonitor) (control : OperationControl) (processed : ℕ)
    → control.is_cancelled ≡ true
    → ((advance_controlled m control processed).0 ≡ err cancelled)
      × IsCancelled (advance_controlled m control processed).1
unfolding advance_controlled
advance_controlled_of_cancelled m control processed h = elim (Bool-cases (is_due m processed)) [
  | inl due ↦
      let held = report_of_cancelled m control processed h in rw due (rw held refl, (_, refl, held))
  | inr early ↦ rw early (rw h refl, (_, refl, h))
]

advance-some :
    (m : OperationMonitor) (n : ℕ) (control : OperationControl)
    → m.control ≡ some control
    → advance m n ≡ advance_controlled m control (saturating_add m.processed n)
unfolding advance
advance-some m n control e = rw e refl

-- The control that `cancel` is called on from outside, whichever thread calls it.
abbrev pub cancel_outside : OperationMonitor → OperationMonitor
cancel_outside m = elim m.control [ none ↦ m | some c ↦ record m { control = some (cancel c) } ]

module _ {ℓ} {S : Type ℓ} (reader : Reader S) where
  abbrev monitor_of : Result R7zError (List ℕ) × OperationMonitor × S → OperationMonitor
  monitor_of (_, m, _) = m

  -- What can happen to a monitor.
  infix 40 ◌⟶◌ ◌⟶*◌
  pub data ◌⟶◌ (m : OperationMonitor) : OperationMonitor → Type ℓ where
    advances : (n : ℕ) → m ⟶ (advance m n).1
    reads : (source : S) (size : ℕ) → m ⟶ monitor_of (read reader m source size)
    cancels : m ⟶ cancel_outside m

  pub data ◌⟶*◌ (m : OperationMonitor) : OperationMonitor → Type ℓ where
    here : m ⟶* m
    next : {t u : OperationMonitor} → m ⟶* t → t ⟶ u → m ⟶* u

  advance_of_IsCancelled :
      (m : OperationMonitor) (n : ℕ)
      → IsCancelled m
      → ((advance m n).0 ≡ err cancelled) × IsCancelled (advance m n).1
  unfolding advance
  advance_of_IsCancelled m n (control, e, h) =
      subst (λ r. (r.0 ≡ err cancelled) × IsCancelled r.1) (sym (advance-some m n control e))
        (advance_controlled_of_cancelled m control (saturating_add m.processed n) h)

  read_of_IsCancelled :
      (m : OperationMonitor) (source : S) (size : ℕ)
      → IsCancelled m
      → read reader m source size ≡ (err cancelled, m, source)
  unfolding read
  read_of_IsCancelled m source size h = rw (read, check_of_IsCancelled m h) refl

  step-IsCancelled : {m t : OperationMonitor} → m ⟶ t → IsCancelled m → IsCancelled t
  step-IsCancelled {m} (advances n) h = (advance_of_IsCancelled m n h).1
  step-IsCancelled {m} (reads source size) h = rw (read_of_IsCancelled m source size h) h
  step-IsCancelled {m} cancels h = ground arith

  reach-IsCancelled : {m t : OperationMonitor} → IsCancelled m → m ⟶* t → IsCancelled t
  reach-IsCancelled h here = h
  reach-IsCancelled h (next r s) = step-IsCancelled s (reach-IsCancelled h r)

  -- Cancellation is permanent: whatever happened since, a read is refused before the source is
  -- asked, an advance is refused, and nothing of the monitor or the source has changed for the
  -- read.
  pub cancelled_is_permanent :
      (m t : OperationMonitor) (source : S) (size n : ℕ)
      → IsCancelled m
      → m ⟶* t
      → (read reader t source size ≡ (err cancelled, t, source)) × ((advance t n).0 ≡ err cancelled)
  cancelled_is_permanent m t source size n h r =
      let held = reach-IsCancelled h r in
      (read_of_IsCancelled t source size held, (advance_of_IsCancelled t n held).0)
