-- ===== src/Chain.antt =====
-- The on-chain pipeline: gateway/internal/core/chain.
pub mod Client
pub mod Submitter
pub mod Watcher
mod Tests
