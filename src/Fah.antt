-- ===== src/Fah.antt =====
-- The rank scheduler of FAH-QLoRA.
pub mod Scheduler
pub mod Stage1
pub mod Stage2
pub mod Assign
pub mod Adjust
pub mod Orders
pub mod Feasible
pub mod Heuristic
pub mod Passes
pub mod Redistribute
pub mod Rounds
pub mod Server
pub mod Process
pub mod Runtime
pub mod Kept
pub mod Serving
pub mod Collected
mod ServerTests
mod Tests
