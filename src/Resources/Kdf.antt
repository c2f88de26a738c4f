-- ===== src/Resources/Kdf.antt =====
-- src/resources.rs: `KdfBudget`.
use r7z.Prelude.{ℕ, ok, ◌>>=◌}
use r7z.Errors.{aes_kdf_cycles}
use r7z.Resources.{KdfBudget, Outcome, assign, next_total}

unfoldable pub charge : KdfBudget → ℕ → Outcome KdfBudget (Unit {0})
unfolding next_total
charge s cycles =
    assign s (next_total s.used cycles s.limit aes_kdf_cycles >>= λ t. ok (record s { used = t }))
