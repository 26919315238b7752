-- ===== src/Irqbalance.antt =====
-- irqbalance.c: `Rebalance` gives an interrupt up, `Scan` is a cycle of balancing, `Stats` the text for
-- a client, `Rescan` builds the tree again, `Daemon` is the whole of `scan`, `Commands` the socket.
pub mod Rebalance
pub mod Scan
pub mod Stats
pub mod Rescan
pub mod Daemon
pub mod Commands
pub mod Options
