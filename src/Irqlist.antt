-- ===== src/Irqlist.antt =====
-- irqlist.c: `Migrate` is migrate_irq_obj, `Balance` chooses what is to move.
pub mod Migrate
pub mod Kept
pub mod Balance
pub mod Retarget
