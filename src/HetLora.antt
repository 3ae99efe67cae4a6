-- ===== src/HetLora.antt =====
-- HetLoRA: clients that lower their LoRA rank, and the restriction of the ranks that are inactive.
pub mod Client
pub mod Server
pub mod Pruning
pub mod Ranks
pub mod Restriction
pub mod Frozen
pub mod Rounds
pub mod Inactive
pub mod Sparsity
pub mod Weighted
mod Tests
