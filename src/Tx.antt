-- ===== src/Tx.antt =====
-- The transaction builder of tx/src: fees, weights, checks, coin selection, processing and building.
pub mod Types
pub mod Fees
pub mod Weight
pub mod Checks
pub mod Select
pub mod Process
pub mod Finalize
pub mod Builder
mod Examples
