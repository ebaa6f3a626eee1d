-- ===== src/Container.antt =====
-- Package container: containers of the docker or podman CLI.
pub mod Deploy
pub mod Runtime
pub mod Ports
pub mod Stop
pub mod Images
pub mod HealthCheck
pub mod Inspection
