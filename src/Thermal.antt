-- ===== src/Thermal.antt =====
-- thermal.c: the CPUs that a hot machine wants idle. `Bans` collects the reports of a sweep over the
-- CPUs, `Sweep` is what that promises, `Events` reads a notification, `Receive` gives up after some
-- failures, `Netlink` looks for the multicast group of the events, and `Setup` opens the socket.
pub mod Bans
pub mod Sweep
pub mod Events
pub mod Receive
pub mod Netlink
pub mod Setup
