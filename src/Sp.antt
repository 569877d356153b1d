-- ===== src/Sp.antt =====
-- The silent payment crate, sp/src: the progress of the block scan.
pub mod ScanState
mod Examples
