-- ===== src/Ui.antt =====
-- ui: the user interface, which asks the daemon over a socket. `Model` is its data, `Parse` reads the
-- answer to "stats", `Reads`, `Grow` and `RoundTrip` are what it makes of the text that is printed.
pub mod Model
pub mod Parse
pub mod Reads
pub mod Grow
pub mod RoundTrip
pub mod Setup
pub mod BannedCpus
pub mod SetupTrip
pub mod Window
pub mod Cpus
pub mod Ranges
pub mod Irqs
pub mod Sleep
pub mod Lists
pub mod Keys
pub mod Connection
pub mod Start
