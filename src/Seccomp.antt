-- ===== src/Seccomp.antt =====
-- labs/07-seccomp-capabilities/main.go: the seccomp filter that the sandbox installs, and the
-- capability sets of a process.
pub mod Filter
pub mod Machine
pub mod Verdict
pub mod Capabilities
pub mod Sandbox
pub mod Containment
pub mod Reported
mod Tests
mod Runs
