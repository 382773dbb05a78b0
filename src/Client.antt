-- ===== src/Client.antt =====
-- packages/client/src
pub mod Effect
pub mod Batch
pub mod Access
pub mod Metadata
pub mod Values
pub mod Variable
pub mod Monitor
mod Tests
