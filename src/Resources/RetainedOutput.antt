-- ===== src/Resources/RetainedOutput.antt =====
-- src/resources.rs: `RetainedOutputBudget`.
use r7z.Prelude.{ℕ, ◌-◌, Result, ok, ◌>>=◌}
use r7z.Errors.{R7zError, retained_output}
use r7z.Resources.{RetainedOutputBudget, Outcome, assign, next_total}

-- `saturating_sub` is `-`, which stops at 0.
unfoldable pub resized_total : RetainedOutputBudget → ℕ → ℕ → Result R7zError ℕ
unfolding next_total
resized_total s current next = next_total (s.retained - current) next s.limit retained_output

unfoldable pub check_resize : RetainedOutputBudget → ℕ → ℕ → Result R7zError (Unit {0})
unfolding resized_total
check_resize s current next = resized_total s current next >>= λ _. ok tt

unfoldable pub resize : RetainedOutputBudget → ℕ → ℕ → Outcome RetainedOutputBudget (Unit {0})
unfolding resized_total
resize s current next =
    assign s (resized_total s current next >>= λ t. ok (record s { retained = t }))

unfoldable pub reserve : RetainedOutputBudget → ℕ → Outcome RetainedOutputBudget (Unit {0})
unfolding resize
reserve s bytes = resize s 0 bytes

unfoldable pub release : RetainedOutputBudget → ℕ → RetainedOutputBudget
release s bytes = record s { retained = s.retained - bytes }
