-- ===== src/Build.antt =====
-- pkg/apis/build: what is run on Shipwright for a Build, and what is recorded of it.
pub mod Image
pub mod Object
pub mod Mapper
pub mod Trigger
pub mod Shipwright
pub mod Provider
pub mod Service
pub mod Samples
