-- ===== src/Workflow.antt =====
-- labs/06-workflow/main.go: a directory is watched, each file that appears there is run as a job in a
-- control group of its own. The kernel's answers are parameters.
pub mod Jobs
pub mod Triggers
pub mod Run
pub mod Stats
pub mod Ends
pub mod Setup
mod Tests
