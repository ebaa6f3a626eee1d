-- ===== src/Tests.antt =====
-- Runs of the modelled code, and the theorems at concrete inputs.
mod Versions
mod Calendar
mod Answers
mod Ticks
mod Arguments
mod Backends
mod Deployments
mod Directories
mod Containers
mod Notices
mod Registries
mod Images
mod Retries
mod Files
mod Sorted
