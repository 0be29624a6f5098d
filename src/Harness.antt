-- ===== src/Harness.antt =====
-- project3: the command line, the threads and the workers of testone and testtwo.
pub mod Args
pub mod Launch
pub mod Debug
pub mod Coins
pub mod Main
pub mod Rounds
pub mod One
pub mod Two
pub mod Samples
mod Tests
