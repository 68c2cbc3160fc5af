-- ===== src/Isolation.antt =====
-- labs/05-resource-isolation/main.go: a command in namespaces of its own, with limits of a control group.
-- The kernel's answers are parameters; what the program did is a list of its calls.
pub mod Cgroup
pub mod Limits
pub mod Process
pub mod Main
mod Tests
