-- ===== src/Placement.antt =====
-- placement.c: where the unplaced interrupts go.
pub mod Best
pub mod Hosts
pub mod Choice
pub mod Place
pub mod Keeps
pub mod Outcome
