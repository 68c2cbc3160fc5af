-- ===== src/IoUring.antt =====
-- labs/09-io-uring-async-io/main.go: one request at a time over the rings that a process shares
-- with the kernel. What the kernel does in `io_uring_enter` is a parameter.
pub mod Types
pub mod Memory
pub mod Submit
pub mod Mapping
pub mod Queue
pub mod Completion
pub mod Resources
pub mod Commands
pub mod Outcomes
pub mod Main
pub mod Releases
pub mod Answered
mod Tests
mod Runs
