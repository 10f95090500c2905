-- ===== src/Deployment.antt =====
-- backend/service/deployment_*.py: deployment tasks, their exclusion, and their history.
pub mod Tasks
pub mod State
pub mod Versions
pub mod Discovery
pub mod Entry
pub mod Recovery
pub mod Forgotten
