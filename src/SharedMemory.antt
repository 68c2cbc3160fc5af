-- ===== src/SharedMemory.antt =====
-- labs/10-shared-memory-mmap/main.go: one message in a mapped file of 4096 bytes.
-- A mapping is the list of its bytes; a store into it is a step of a program on that state, and
-- a slice expression out of range is a panic. A `time.Time` is its `UnixNano`.
pub mod Layout
pub mod Store
pub mod Header
pub mod RoundTrip
pub mod Contract
pub mod Watch
pub mod Torn
pub mod Session
pub mod Files
pub mod Commands
pub mod Balance
pub mod Delivery
mod Runs
mod Tests
