-- ===== src/Deploy.antt =====
-- internal/deploy: the deployment of a service, its life cycle and the readiness probe.
pub mod Interface
pub mod Caddyfile
pub mod Requests
pub mod Failures
pub mod Service
pub mod Constructor
pub mod Mounts
pub mod Lifecycle
pub mod Readiness
pub mod Trace
pub mod Host
pub mod Rollback
pub mod Stored
pub mod Registered
