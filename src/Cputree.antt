-- ===== src/Cputree.antt =====
-- cputree.c: `Add` puts one CPU into the tree, `Parse` walks over the CPUs, `Clear` resets and frees what
-- the tree holds; the search for a CPU stands with the loads in Procinterrupts. `Tree`, `Linked` and `Grown` are
-- the shape of the tree, `Unlisted`, `Built` and `Freed` its lists of interrupts while it is built.
pub mod Add
pub mod Clear
pub mod Tree
pub mod Linked
pub mod Grown
pub mod Parse
pub mod Unlisted
pub mod Built
pub mod Freed
