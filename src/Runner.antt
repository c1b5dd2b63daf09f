-- ===== src/Runner.antt =====
-- specs/runner.go: the execution of a compiled program.
pub mod Hooks
pub mod Observer
pub mod Groups
