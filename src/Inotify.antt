-- ===== src/Inotify.antt =====
-- labs/02-inotify/main.go: events of a watched path, decoded from the bytes that a read of the inotify
-- descriptor leaves in a buffer, and their lines. Numbers are stored lowest byte first, as on x86-64.
pub mod Layout
pub mod Events
pub mod RoundTrip
pub mod Ends
pub mod Mask
pub mod Watch
pub mod Lines
pub mod Setup
pub mod Whole
mod Tests
