-- ===== src/Examples.antt =====
-- Runs of the models at concrete inputs: the fixtures, the tests, and the theorems at work.
pub mod Fixtures
pub mod Tokens
pub mod Accounts
pub mod Caching
pub mod Mail
pub mod Videos
pub mod Social
pub mod Stores
pub mod Reports
