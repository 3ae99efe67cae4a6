-- ===== src/Hetero.antt =====
-- HeteroLoRA: one aggregated model, and clients whose LoRA modules have ranks of their own.
pub mod Keys
pub mod Distribute
pub mod PerClient
pub mod Load
pub mod Fitting
pub mod Sent
pub mod Download
pub mod Served
pub mod Aggregate
pub mod Unchecked
pub mod Averaging
pub mod Totals
pub mod Checked
pub mod Average
pub mod Initial
pub mod Found
pub mod Aggregation
pub mod Shapes
pub mod Patterns
pub mod Config
pub mod Update
mod Tests
