-- ===== src/Epoll.antt =====
-- labs/04-epoll/main.go: the echo server behind a handshake. What the sockets answer is part of each
-- event; standard output is left out.
pub mod Server
pub mod Connections
pub mod Session
pub mod Handshake
pub mod Descriptors
pub mod Turns
pub mod Setup
pub mod Releases
mod Tests
