-- ===== src/Kv.antt =====
-- The key-value layer under storage/: write batches, the transaction buffer and the mock engine.
pub mod Batch
pub mod TxBuffer
pub mod Store
pub mod Iterator
pub mod Engine
pub mod GetBatch
pub mod Overlay
pub mod Merging
mod Tests
mod ScanTests
