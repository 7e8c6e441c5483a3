-- ===== src/Docker.antt =====
-- internal/dockerdrv: the requests of the driver (driver.go) and the driver that runs the `docker`
-- command (cli_driver.go).
pub mod Types
pub mod Args
pub mod Cli
