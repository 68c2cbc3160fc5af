-- ===== src/Procfs.antt =====
-- labs/01-procfs/main.go: the texts of /proc, taken apart.
pub mod Samples
pub mod Safety
pub mod Readback
pub mod Telemetry
pub mod Rates
pub mod Sections
pub mod Settled
pub mod Screens
pub mod Numbered
pub mod Cores
mod Tests
mod Runs
