-- ===== src/AdaSparse.antt =====
-- The pruning of rank-1 components and the budgeted uploads of AdaSparse-LoRA.
pub mod Indices
pub mod Client
pub mod Counts
pub mod Pruning
pub mod Sorting
pub mod Expand
pub mod Placing
pub mod GlobalRoundTrip
pub mod Budget
pub mod Select
pub mod Validation
pub mod Residuals
pub mod Feedback
pub mod Exact
pub mod RankUtils
pub mod Server
pub mod Consistent
pub mod Agreement
mod Tests
mod ServerTests
