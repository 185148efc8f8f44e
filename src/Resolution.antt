-- ===== src/Resolution.antt =====
-- resolution/: decoding a contract into a resolved spec, one module for each kind.
pub mod Contract
pub mod Route
pub mod ServiceUnit
pub mod Domain
pub mod Deployment
pub mod Build
pub mod Environment
pub mod Packages
pub mod GitHubEvent
