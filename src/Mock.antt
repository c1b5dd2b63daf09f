-- ===== src/Mock.antt =====
-- mock: hand-written test doubles. `Model` holds the data, `Counts` the count methods, `Stub` the
-- responses, `Controller` the registration, `Calls` the matching of a call, `Verify` the final report.
pub mod Model
pub mod Counts
pub mod Stub
pub mod Controller
pub mod Calls
pub mod Verify
pub mod Log
pub mod Spies
