-- ===== src/Resources/TemporaryStorage.antt =====
-- src/resources.rs: `TemporaryStorageBudget`.
use r7z.Prelude.{ℕ, Result, ok, ◌>>=◌}
use r7z.Errors.{R7zError, temporary_storage}
use r7z.Resources.{TemporaryStorageBudget, Outcome, assign, next_total}

unfoldable pub check_write : TemporaryStorageBudget → ℕ → Result R7zError (Unit {0})
unfolding next_total
check_write s bytes = next_total s.written bytes s.limit temporary_storage >>= λ _. ok tt

unfoldable pub charge_write : TemporaryStorageBudget → ℕ → Outcome TemporaryStorageBudget (Unit {0})
unfolding next_total
charge_write s bytes =
    assign s
      (next_total s.written bytes s.limit temporary_storage >>= λ t. ok (record s { written = t }))
