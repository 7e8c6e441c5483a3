-- ===== src/Registry.antt =====
-- internal/registry: the types that it persists (types.go), the mount grammar (mount.go) and the
-- store on the file system (store.go).
pub mod Types
pub mod Mount
pub mod Files
pub mod Store
