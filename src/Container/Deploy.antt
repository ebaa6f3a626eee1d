-- ===== src/Container/Deploy.antt =====
-- container/deploy.go: the rolling deployment, over a container CLI that answers as it likes.
pub mod Defs
pub mod Untouched
pub mod Counts
pub mod Starting
pub mod Rollback
