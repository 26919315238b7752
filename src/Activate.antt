-- ===== src/Activate.antt =====
-- activate.c: the placement is written to the kernel. `Search` finds a CPU to fall back to,
-- `Fallback` tries such CPUs in turn, `Domain` tells where, `Mapping` writes the masks of all interrupts.
pub mod Kernel
pub mod Search
pub mod Fallback
pub mod Mapping
pub mod Keeps
pub mod Domain
pub mod Scope
pub mod Written
