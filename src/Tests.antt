-- ===== src/Tests.antt =====
-- Concrete runs of the model, and the theorems at concrete inputs.
pub mod Bundle
mod Varints
mod Headers
mod Graphs
mod Written
mod Budgets
mod Files
mod Paths
mod Solid
