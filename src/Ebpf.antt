-- ===== src/Ebpf.antt =====
-- labs/11-ebpf-xdp/main.go: the state of network interfaces and the commands of the workflow. The file
-- system and the kernel's interfaces are parameters.
pub mod Interfaces
pub mod OperState
pub mod Probes
pub mod Listing
mod Tests
mod Runs
