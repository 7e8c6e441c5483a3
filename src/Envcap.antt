-- ===== src/Envcap.antt =====
-- internal/envcap/capture.go: the environment that a script sets, as the difference of two dumps.
pub mod Dump
pub mod Capture
pub mod Laws
