-- ===== src/Samples.antt =====
-- Concrete runs of the modelled code: test data, and the theorems applied to it.
mod Mocks
mod Shards
mod Suites
mod Runs
mod Releases
mod Collected
mod Assertions
mod Numbers
