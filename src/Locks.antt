-- ===== src/Locks.antt =====
-- project2: the five locks behind the class LOCK, and the tests that use them.
pub mod Algorithm
pub mod Flag
pub mod Backoff
pub mod Spin
pub mod Anderson
pub mod Schedule
pub mod SimpleTest
pub mod Create
pub mod Samples
pub mod Args
pub mod Launch
pub mod SecondTest
