-- ===== src/Cli.antt =====
-- cli/cli.go and main.go: the command line.
pub mod State
pub mod Commands
pub mod Process
pub mod Sending
pub mod Balance
