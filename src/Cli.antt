-- ===== src/Cli.antt =====
-- internal/cli: the commands and their exit codes.
pub mod ExitCodes
pub mod DeployExit
pub mod MainExit
pub mod DeployCommand
pub mod StatusCommand
pub mod Production
pub mod Commands
