-- ===== src/Resources/Safety.antt =====
-- src/resources.rs: no sequence of operations brings a counter over its limit.
use r7z.Prelude.{
  ℕ, ◌+◌, ◌-◌, ◌≤◌, ◌≡◌, refl, ap, inl, inr, Option, some, ok, err, out_of_fuel, Result-cases,
  arith,
}
use r7z.Errors.{Resource}
use r7z.Resources.{Outcome, or_max, next_total, RetainedOutputBudget, KdfBudget}
use r7z.Resources.Kdf
use r7z.Resources.RetainedOutput
use r7z.Resources.OpenVolumes
use r7z.Operation.{OperationControl}
use r7z.Operation
use r7z.Resources.Operation.{
  ResourceLimits, OperationBudget, new, with_control, decoded_remaining, metadata_remaining,
  charge_metadata, charge_decoded, next_decoded, settle, with_eager_decoded_output,
  with_retained_output_reservation, admit_decoder_working_set, working_set_limit, charge_kdf_cycles,
  charge_open_volume, release_open_volume, is_before_decoding,
}

-- Every counter is within its limit, and every part still has the limit it was made with.
pub record IsWithin (limits : ResourceLimits) (s : OperationBudget) : Type 0 where
  pub limits_kept : s.limits ≡ limits
  pub kdf_limit : s.kdf.limit ≡ limits.max_total_kdf_cycles
  pub retained_limit : s.retained.limit ≡ limits.max_retained_output_bytes
  pub open_limit : s.open_volumes.limit ≡ limits.max_open_volumes
  pub metadata_le : s.metadata_used ≤ limits.max_metadata_bytes
  pub decoded_le : s.decoded ≤ or_max limits.max_total_decoded_bytes
  pub peak_le : s.peak_decoder_working_set ≤ working_set_limit s
  pub kdf_le : s.kdf.used ≤ or_max limits.max_total_kdf_cycles
  pub retained_le : s.retained.retained ≤ or_max limits.max_retained_output_bytes
  pub open_le : s.open_volumes.open_count ≤ limits.max_open_volumes

pub next_total-le :
    (used amount total : ℕ) (limit : Option ℕ) (resource : Resource)
    → next_total used amount limit resource ≡ ok total
    → total ≤ or_max limit
unfolding next_total
next_total-le used amount total limit resource h = ground arith

pub charge-le :
    (b : KdfBudget) (n : ℕ)
    → b.used ≤ or_max b.limit
    → ((Kdf.charge b n).1.limit ≡ b.limit) × ((Kdf.charge b n).1.used ≤ or_max b.limit)
unfolding Kdf.charge next_total
charge-le b n h = ground arith

resize-le :
    (b : RetainedOutputBudget) (n : ℕ)
    → b.retained ≤ or_max b.limit
    → ((RetainedOutput.reserve b n).1.limit ≡ b.limit)
      × ((RetainedOutput.reserve b n).1.retained ≤ or_max b.limit)
unfolding RetainedOutput.reserve RetainedOutput.resize RetainedOutput.resized_total next_total
resize-le b n h = ground arith

next_decoded-le :
    (s : OperationBudget) (n total : ℕ)
    → next_decoded s n ≡ ok total
    → total ≤ or_max s.limits.max_total_decoded_bytes
unfolding next_decoded
next_decoded-le s n total h = ground arith

module _ (limits : ResourceLimits) (s : OperationBudget) (h : IsWithin limits s) where
  charge_metadata-IsWithin : (n : ℕ) → IsWithin limits (charge_metadata s n).1
  unfolding charge_metadata
  charge_metadata-IsWithin n = ground (arith, h)

  charge_decoded-IsWithin : (n : ℕ) → IsWithin limits (charge_decoded s n).1
  unfolding charge_decoded next_decoded
  charge_decoded-IsWithin n = ground (arith, h)

  admit-IsWithin : (n : ℕ) → IsWithin limits (admit_decoder_working_set s n).1
  unfolding admit_decoder_working_set
  admit-IsWithin n = ground (arith, h)

  charge_kdf-IsWithin : (n : ℕ) → IsWithin limits (charge_kdf_cycles s n).1
  unfolding charge_kdf_cycles
  charge_kdf-IsWithin n = ground (arith, h, charge-le s.kdf n)

  charge_open-IsWithin : IsWithin limits (charge_open_volume s).1
  unfolding charge_open_volume OpenVolumes.charge
  charge_open-IsWithin = ground (arith, h)

  release_open-IsWithin : IsWithin limits (release_open_volume s)
  unfolding release_open_volume OpenVolumes.release
  release_open-IsWithin = ground (arith, h)

  with_control-IsWithin : (c : Option OperationControl) → IsWithin limits (with_control s c)
  unfolding with_control
  with_control-IsWithin c = ground (arith, h)

  advance-IsWithin :
      (n : ℕ) → IsWithin limits (record s { monitor = (Operation.advance s.monitor n).1 })
  advance-IsWithin n = ground (arith, h)

-- The budget that nested work starts from behind a reservation.
abbrev pub reserved : OperationBudget → ℕ → OperationBudget
reserved s n = record s { retained = (RetainedOutput.reserve s.retained n).1 }

module _ {ℓ} {T : Type ℓ} (limits : ResourceLimits) where
  settle-IsWithin :
      (next_total : ℕ) (outcome : Outcome OperationBudget T)
      → next_total ≤ or_max limits.max_total_decoded_bytes
      → IsWithin limits outcome.1
      → IsWithin limits (settle next_total outcome).1
  unfolding settle is_before_decoding
  settle-IsWithin t (ok output, s) bound h = ground (arith, h)
  settle-IsWithin t (err e, s) bound h = ground (arith, h)
  settle-IsWithin t (out_of_fuel, s) bound h = h

  module _ (s : OperationBudget) (n : ℕ)
      (nested : OperationBudget → Outcome OperationBudget T) where
    eager-IsWithin :
        IsWithin limits s
        → IsWithin limits (nested s).1
        → IsWithin limits (with_eager_decoded_output s n nested).1
    unfolding with_eager_decoded_output
    eager-IsWithin h kept = elim (Result-cases (next_decoded s n)) [
      | inl (t, e) ↦
          rw (with_eager_decoded_output, e)
            (settle-IsWithin t (nested s) (ground (arith, h, next_decoded-le s n t e)) kept)
      | inr (inl (r, e)) ↦ rw (with_eager_decoded_output, e) h
      | inr (inr e) ↦ rw (with_eager_decoded_output, e) h
    ]

    reserved-IsWithin : IsWithin limits s → IsWithin limits (reserved s n)
    reserved-IsWithin h = ground (arith, h, resize-le s.retained n)

    released-IsWithin :
        (t : OperationBudget)
        → IsWithin limits t
        → IsWithin limits (record t { retained = RetainedOutput.release t.retained n })
    unfolding RetainedOutput.release
    released-IsWithin t h = ground (arith, h)

    reservation-IsWithin :
        IsWithin limits s
        → IsWithin limits (nested (reserved s n)).1
        → IsWithin limits (with_retained_output_reservation s n nested).1
    unfolding with_retained_output_reservation
    reservation-IsWithin h kept = elim (Result-cases (RetainedOutput.reserve s.retained n).0) [
      | inl (u, e) ↦ rw e (released-IsWithin (nested (reserved s n)).1 kept)
      | inr (inl (r, e)) ↦ rw e (reserved-IsWithin h)
      | inr (inr e) ↦ rw e (reserved-IsWithin h)
    ]

-- What an archive operation does with its budget. Nested work is any function that itself leaves a
-- budget that such steps reach.
mutual
  pub data Step : OperationBudget → OperationBudget → Type 1 where
    metadata : {s : OperationBudget} (n : ℕ) → Step s (charge_metadata s n).1
    decoded : {s : OperationBudget} (n : ℕ) → Step s (charge_decoded s n).1
    working_set : {s : OperationBudget} (n : ℕ) → Step s (admit_decoder_working_set s n).1
    kdf : {s : OperationBudget} (n : ℕ) → Step s (charge_kdf_cycles s n).1
    opened : {s : OperationBudget} → Step s (charge_open_volume s).1
    closed : {s : OperationBudget} → Step s (release_open_volume s)
    controlled : {s : OperationBudget} (c : Option OperationControl) → Step s (with_control s c)
    advanced :
        {s : OperationBudget} (n : ℕ)
        → Step s (record s { monitor = (Operation.advance s.monitor n).1 })
    eager :
        {T : Type 0} {s : OperationBudget} (n : ℕ)
        (start : OperationBudget → Outcome OperationBudget T)
        → Reach s (start s).1
        → Step s (with_eager_decoded_output s n start).1
    reserving :
        {T : Type 0} {s : OperationBudget} (n : ℕ)
        (operation : OperationBudget → Outcome OperationBudget T)
        → Reach (reserved s n) (operation (reserved s n)).1
        → Step s (with_retained_output_reservation s n operation).1

  pub data Reach : OperationBudget → OperationBudget → Type 1 where
    here : {s : OperationBudget} → Reach s s
    next : {s t u : OperationBudget} → Reach s t → Step t u → Reach s u

module _ (limits : ResourceLimits) where
  mutual
    Step-IsWithin : {s t : OperationBudget} → IsWithin limits s → Step s t → IsWithin limits t
    Step-IsWithin {s} h (metadata n) = charge_metadata-IsWithin limits s h n
    Step-IsWithin {s} h (decoded n) = charge_decoded-IsWithin limits s h n
    Step-IsWithin {s} h (working_set n) = admit-IsWithin limits s h n
    Step-IsWithin {s} h (kdf n) = charge_kdf-IsWithin limits s h n
    Step-IsWithin {s} h opened = charge_open-IsWithin limits s h
    Step-IsWithin {s} h closed = release_open-IsWithin limits s h
    Step-IsWithin {s} h (controlled c) = with_control-IsWithin limits s h c
    Step-IsWithin {s} h (advanced n) = advance-IsWithin limits s h n
    Step-IsWithin {s} h (eager n start r) = eager-IsWithin limits s n start h (Reach-IsWithin h r)
    Step-IsWithin {s} h (reserving n operation r) =
        reservation-IsWithin limits s n operation h
          (Reach-IsWithin (reserved-IsWithin limits s n operation h) r)

    Reach-IsWithin : {s t : OperationBudget} → IsWithin limits s → Reach s t → IsWithin limits t
    Reach-IsWithin h here = h
    Reach-IsWithin h (next r st) = Step-IsWithin (Reach-IsWithin h r) st

  new-IsWithin : IsWithin limits (new limits)
  unfolding new
  new-IsWithin = ground arith

  -- Whatever an archive operation does, nested work and failures included: metadata, decoded
  -- output, decoder working set, KDF cycles, retained output and open volumes stay within the
  -- limits that its budget was made with.
  pub new-Reach-IsWithin : {s : OperationBudget} → Reach (new limits) s → IsWithin limits s
  new-Reach-IsWithin r = Reach-IsWithin new-IsWithin r

  -- Under a limit on the decoded bytes, the unchecked subtractions of both remaining allowances
  -- are exact in every state that an operation reaches.
  pub remaining_exact :
      {s : OperationBudget} (limit : ℕ)
      → Reach (new limits) s
      → limits.max_total_decoded_bytes ≡ some limit
      → (metadata_remaining s + s.metadata_used ≡ limits.max_metadata_bytes)
        × ((left : ℕ) × (decoded_remaining s ≡ some left) × (left + s.decoded ≡ limit))
  unfolding metadata_remaining decoded_remaining
  remaining_exact {s} limit r e =
      let h = new-Reach-IsWithin r in
      let bound : s.decoded ≤ limit = rw e at h.decoded_le in
      (
        omega (arith, ap (λ l. l.max_metadata_bytes) h.limits_kept, h.metadata_le),
        (limit - s.decoded, rw (decoded_remaining, h.limits_kept, e) refl, omega (arith, bound)),
      )
