-- ===== src/Registry.antt =====
-- Package registry: the versions that the registries list, and the choice of the one to deploy.
pub mod Atoi
pub mod PreRelease
pub mod Pattern
pub mod Print
pub mod Latest
pub mod SemVer
pub mod CalVer
pub mod Cached
pub mod Platform
pub mod Backends
