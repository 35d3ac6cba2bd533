-- ===== src/Receipt.antt =====
-- The receipt pipeline: gateway/internal/core/receipt.
pub mod Record
pub mod Json
pub mod SampleJson
pub mod SampleEth
pub mod Store
pub mod Builder
pub mod Processor
mod Tests
