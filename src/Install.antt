-- ===== src/Install.antt =====
-- Install planning: src/infinitas_skill/install, the solver for dependencies and the plan.
pub mod Model
pub mod Matching
pub mod Solver
pub mod Lookup
pub mod Steps
pub mod Sound
pub mod Peace
pub mod Measure
pub mod Ends
pub mod Plan
pub mod Visit
pub mod Returns
pub mod Applied
pub mod Planned
pub mod Kept
pub mod Whole
pub mod Examples
