-- ===== src/Tests.antt =====
-- Runs of the model on concrete inputs, with a host that exists only here.
pub mod Host
pub mod Deploys
pub mod Readings
pub mod Commands
pub mod Stores
pub mod Memory
pub mod Registry
pub mod Enrolled
pub mod Routed
pub mod Production
pub mod Sites
