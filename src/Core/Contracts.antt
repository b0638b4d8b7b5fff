-- ===== src/Core/Contracts.antt =====
-- core/contracts: the public contracts of processor jobs and enrichment results.
pub mod ProcessorJob
pub mod EnrichmentResult
