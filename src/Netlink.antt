-- ===== src/Netlink.antt =====
-- labs/08-netlink-route-monitoring/main.go: route messages of the kernel, decoded to text.
-- Numbers are stored in the byte order of x86-64, lowest byte first.
pub mod Messages
pub mod Attributes
pub mod Address
pub mod Format
pub mod Align
pub mod Rounds
pub mod RoundTrip
pub mod Safety
pub mod Events
pub mod Listener
pub mod Listening
mod Runs
mod Tests
