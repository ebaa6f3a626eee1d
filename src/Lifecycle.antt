-- ===== src/Lifecycle.antt =====
-- lifecycle.go, dewy.go, release.go and hooks.go: one tick of the deployment of a server or of assets.
pub mod Outside
pub mod Keys
pub mod Phases
pub mod Outcome
pub mod Kept
pub mod Promotion
pub mod Failures
pub mod Releases
pub mod Pruning
pub mod AppName
pub mod Retry
pub mod Containers
