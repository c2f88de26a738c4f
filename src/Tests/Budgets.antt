-- ===== src/Tests/Budgets.antt =====
-- Budgets and monitors at concrete inputs.
use r7z.Prelude.{ℕ, length, ◌+◌, ◌*◌, ◌≤◌, ◌≡◌, refl, true, false, some, [], ◌∷◌, ok, err, arith}
use r7z.Errors.{cancelled, resource_limit_exceeded, aes_kdf_cycles}
use r7z.Operation.{
  OperationControl, OperationMonitor, Reader, new_monitor, advance, read, report,
  advance_controlled, is_due, check_interval,
}
use r7z.Operation.Laws.{
  calls_of, advance_all, calls_of-advance_all, cancelled_is_permanent, here, next, advances,
}
use r7z.Resources.{Outcome, KdfBudget}
use r7z.Resources.Operation.{
  ResourceLimits, OperationBudget, default_limits, new, charge_metadata, charge_decoded,
  charge_kdf_cycles, with_eager_decoded_output, with_retained_output_reservation,
  metadata_remaining, decoded_remaining,
}
use r7z.Resources.Safety
use r7z.Resources.Safety.{IsWithin, Reach, new-Reach-IsWithin, remaining_exact, reserved}
use r7z.Resources.Totals.{charge_all, charge_all-ledger, reservation_restores}

abbrev limits : ResourceLimits
limits = record default_limits {
  max_total_decoded_bytes = some 10;
  max_total_kdf_cycles = some 8;
  max_retained_output_bytes = some 5;
}

-- Nested work: it charges 4 KDF cycles.
abbrev derive_key : OperationBudget → Outcome OperationBudget (Unit {0})
derive_key s = charge_kdf_cycles s 4

-- 100 bytes of metadata, then 7 bytes decoded behind a key derivation, then 20 bytes that are
-- refused.
abbrev spent : OperationBudget
spent =
    (charge_decoded (with_eager_decoded_output (charge_metadata (new limits) 100).1 7 derive_key).1
      20).1

spent-Reach : Reach (new limits) spent
spent-Reach =
    Reach.next
      (Reach.next (Reach.next Reach.here (Safety.metadata 100))
        (Safety.eager 7 derive_key (Reach.next Reach.here (Safety.kdf 4))))
      (Safety.decoded 20)

new-Reach-IsWithin_example : IsWithin limits spent
new-Reach-IsWithin_example = new-Reach-IsWithin limits spent-Reach

remaining_exact_example :
    (metadata_remaining spent + spent.metadata_used ≡ 64 * 1024 * 1024)
    × ((left : ℕ) × (decoded_remaining spent ≡ some left) × (left + spent.decoded ≡ 10))
remaining_exact_example = remaining_exact limits 10 spent-Reach refl

abbrev kdf_budget : KdfBudget
kdf_budget = record { used = 3; limit = some 8 }

charge_all-ledger_example :
    (charge_all kdf_budget (2 ∷ 2 ∷ 2 ∷ [])).0 ≡ err (resource_limit_exceeded aes_kdf_cycles 8)
charge_all-ledger_example =
    charge_all-ledger kdf_budget (2 ∷ 2 ∷ 2 ∷ []) 8 refl (omega arith) (omega arith)

reservation_restores_example :
    (with_retained_output_reservation (new limits) 4 derive_key).1.retained ≡ (new limits).retained
unfolding new charge_kdf_cycles
reservation_restores_example = reservation_restores (new limits) 4 5 derive_key refl refl

-- A callback that breaks at once.
abbrev breaking : OperationControl
breaking = record { is_cancelled = false; progress = some (λ _. true); calls = [] }

calls_of-advance_all_example :
    length (calls_of (advance_all (new_monitor (some breaking)) (65535 ∷ 1 ∷ 5 ∷ [])))
      * check_interval
    ≤ 65541
calls_of-advance_all_example = calls_of-advance_all (some breaking) (65535 ∷ 1 ∷ 5 ∷ [])

two_calls :
    length (calls_of (advance_all (new_monitor (some breaking)) (65536 ∷ 65535 ∷ 1 ∷ []))) ≡ 2
unfolding advance_all advance advance_controlled is_due report
two_calls = refl

-- A source that gives one byte at a time.
abbrev counting : Reader ℕ
counting source size = (ok (5 ∷ []), source + 1)

abbrev cancelled_monitor : OperationMonitor
cancelled_monitor = new_monitor (some (record breaking { is_cancelled = true }))

cancelled_is_permanent_example :
    (read counting (advance cancelled_monitor 70000).1 0 16
      ≡ (err cancelled, (advance cancelled_monitor 70000).1, 0))
    × ((advance (advance cancelled_monitor 70000).1 1).0 ≡ err cancelled)
cancelled_is_permanent_example =
    cancelled_is_permanent counting cancelled_monitor (advance cancelled_monitor 70000).1 0 16 1
      (record breaking { is_cancelled = true }, refl, refl) (next here (advances 70000))
