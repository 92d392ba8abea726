-- ===== src/Examples.antt =====
-- Concrete runs: the theorems applied where their hypotheses hold.
pub mod Lists
pub mod Maps
pub mod Slots
pub mod Heaps
pub mod Courses
pub mod Entry
pub mod Programs
pub mod Grow
