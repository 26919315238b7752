-- ===== src/Classify.antt =====
-- classify.c: the database of interrupts. `Lookup` finds an interrupt by its number and walks a
-- list, `Migrate` moves one between lists, `Sort` orders a list.
pub mod Lookup
pub mod Migrate
pub mod Sort
pub mod Pci
pub mod Policy
pub mod Bans
pub mod Database
pub mod Known
pub mod Rebuilt
pub mod Removal
pub mod Removed
