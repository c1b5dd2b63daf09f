-- ===== src/Sharding.antt =====
-- specs/sharding.go: which part of a suite a CI worker runs, and how it is asked for.
-- `Select` is the partition itself and `Request` the flag and the environment.
pub mod Select
pub mod Request
