-- ===== src/Caddy.antt =====
-- internal/caddy: the Caddyfile's text, the commands inside the decloud-caddy container, and that
-- container itself.
pub mod Generator
pub mod Manager
pub mod Stub
pub mod Reloader
