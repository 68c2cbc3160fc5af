-- ===== src/Signals.antt =====
-- labs/03-signals/main.go: the agent's main loop and its worker, which run at the same time on one log.
pub mod Agent
pub mod Shutdown
pub mod Leaving
mod Tests
