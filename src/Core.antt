-- ===== src/Core.antt =====
-- core/: what every resource kind shares.
pub mod Conditions
pub mod Registry
pub mod Engine
pub mod Pool
pub mod Predicates
