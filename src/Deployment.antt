-- ===== src/Deployment.antt =====
-- pkg/apis/deployment: executing the plan of a Deployment and recording the outcome.
pub mod Provider
pub mod Strategy
pub mod Executor
pub mod Service
pub mod Recording
