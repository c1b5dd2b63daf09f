-- ===== src/Suite.antt =====
-- specs: how a suite is declared (`Builder`), how its scopes are named (`Labels`), what it is
-- compiled to (`Program`) and how that runs (`Runner`).
pub mod Labels
pub mod Program
pub mod Declared
pub mod Builder
pub mod Shards
