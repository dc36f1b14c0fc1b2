-- ===== src/System.antt =====
-- The parts of the operator together, as cmd/main.go sets them up.
pub mod Follow
pub mod Apart
pub mod Filter
pub mod Steps
