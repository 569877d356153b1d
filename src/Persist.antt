-- ===== src/Persist.antt =====
-- The persistence crate, persist/src: errors and store names, backends, and the typed stores.
pub mod Types
pub mod Backend
pub mod RamStore
pub mod Memory
mod Examples
