-- ===== src/Versions.antt =====
-- Versions and dependency constraints: src/infinitas_skill/install/version_constraints.py.
pub mod Semver
pub mod Order
pub mod Decimal
pub mod Constraint
pub mod Ranges
pub mod Exact
pub mod Examples
