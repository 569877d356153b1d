-- ===== src/Electrum.antt =====
-- The Electrum crate, electrum/src: the payment history, the header validation,
-- the address store and the listeners.
pub mod Types
pub mod Updates
pub mod TxStore
pub mod Claims
pub mod Merkle
pub mod CoinStore
pub mod HeaderStore
pub mod Reconcile
pub mod History
pub mod Headers
pub mod Addresses
pub mod Fanout
mod Examples
