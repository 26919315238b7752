-- ===== src/Procinterrupts.antt =====
-- procinterrupts.c: `Load` shares the load of the CPUs among the interrupts, `Slice` is what that
-- promises, `Branch` the sum over the tree in it, `Lines` reads /proc/interrupts.
pub mod Load
pub mod Branch
pub mod Slice
pub mod Keeps
pub mod Lines
