-- ===== src/Samples.antt =====
-- Concrete machines on which the theorems are applied and the code is run.
mod Masks
mod Sorting
mod Machine
mod Placements
mod Cycle
mod Heat
mod Client
mod Loop
mod Screens
mod Starting
