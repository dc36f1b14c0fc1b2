-- ===== src/JobRunner.antt =====
-- internal/controller/jobrunner/jobrunner.go: jobs on the host's node, and the output of commands.
pub mod Types
pub mod Scripts
pub mod HostScript
pub mod CommandScripts
pub mod Build
pub mod Wait
pub mod Run
pub mod Commands
