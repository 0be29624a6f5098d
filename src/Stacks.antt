-- ===== src/Stacks.antt =====
-- project3: the stacks behind the class Stack.
pub mod LockFree
pub mod Collector
pub mod Locked
pub mod Elimination
