-- ===== src/Resources/Totals.antt =====
-- src/resources.rs: a series of charges against the sum of its amounts, and reservations.
use r7z.Prelude.{
  ℕ, ◌+◌, ◌≤◌, ◌≡◌, refl, ap, ◌∙◌, inl, inr, some, List, [], ◌∷◌, Result, ok, err, out_of_fuel,
  Result-cases, arith, if◌then◌else◌, leb, IsU64, Bool-cases,
}
use r7z.Errors.{R7zError, resource_limit_exceeded, aes_kdf_cycles, temporary_storage}
use r7z.Resources.{KdfBudget, TemporaryStorageBudget, Outcome, next_total}
use r7z.Resources.Kdf.{charge}
use r7z.Resources.TemporaryStorage.{check_write, charge_write}
use r7z.Resources.RetainedOutput.{resized_total, resize, reserve, release}
use r7z.Resources.Operation.{OperationBudget, with_retained_output_reservation}
use r7z.Resources.Safety.{reserved}
use r7z.Operation.Laws.{total}

abbrev continue_with :
    Outcome KdfBudget (Unit {0}) → Outcome KdfBudget (Unit {0}) → Outcome KdfBudget (Unit {0})
continue_with (ok _, _) rest = rest
continue_with (err e, b) rest = (err e, b)
continue_with (out_of_fuel, b) rest = (out_of_fuel, b)

-- One charge after another, as far as they are admitted.
unfoldable pub charge_all : KdfBudget → List ℕ → Outcome KdfBudget (Unit {0})
charge_all b [] = (ok tt, b)
charge_all b (n ∷ ns) = let rest = charge_all (charge b n).1 ns in continue_with (charge b n) rest

-- The abstract ledger: a sum that is compared with the limit once.
abbrev pub ledger : ℕ → ℕ → Result R7zError (Unit {0})
ledger limit sum =
    if leb sum limit then ok tt else err (resource_limit_exceeded aes_kdf_cycles limit)

charge_limited :
    (b : KdfBudget) (n limit : ℕ)
    → b.limit ≡ some limit
    → IsU64 limit
    → charge b n ≡ (
      ledger limit (b.used + n),
      if leb (b.used + n) limit then record b { used = b.used + n } else b,
    )
unfolding charge next_total
charge_limited b n limit e h = ground arith

-- Under a limit, a series of KDF charges is admitted exactly when what was used and all of their
-- amounts together are within the limit, and is refused with that limit otherwise.
pub charge_all-ledger :
    (b : KdfBudget) (ns : List ℕ) (limit : ℕ)
    → b.limit ≡ some limit
    → IsU64 limit
    → b.used ≤ limit
    → (charge_all b ns).0 ≡ ledger limit (b.used + total ns)
unfolding charge_all
charge_all-ledger b [] limit e h le = ground arith
charge_all-ledger b (n ∷ ns) limit e h le = elim (Bool-cases (leb (b.used + n) limit)) [
  | inl fits ↦
      rw (charge_limited b n limit e h, fits)
        (charge_all-ledger (record b { used = b.used + n }) ns limit e h (ground arith)
          ∙ ap (ledger limit) (omega arith))
  | inr over ↦ rw (charge_limited b n limit e h, over) (ground arith)
]

-- Checking a write and charging it give the same answer, and the check is not charged.
pub charge_write-check_write :
    (b : TemporaryStorageBudget) (n : ℕ) → (charge_write b n).0 ≡ check_write b n
unfolding charge_write check_write
charge_write-check_write b n =
    elim (Result-cases (next_total b.written n b.limit temporary_storage)) [
      | inl (t, e) ↦ rw e refl
      | inr (inl (r, e)) ↦ rw e refl
      | inr (inr e) ↦ rw e refl
    ]

module _ {ℓ} {T : Type ℓ} (s : OperationBudget) (n limit : ℕ) where
  -- Under a limit on the retained output, when nested work leaves the retained output as it found it,
  -- a reservation behind which it ran gives back what it took. Without a limit the sum saturates.
  pub reservation_restores :
      (nested : OperationBudget → Outcome OperationBudget T)
      → s.retained.limit ≡ some limit
      → (nested (reserved s n)).1.retained ≡ (reserved s n).retained
      → (with_retained_output_reservation s n nested).1.retained ≡ s.retained
  unfolding with_retained_output_reservation reserve resize resized_total next_total release
  reservation_restores nested e kept = ground arith
