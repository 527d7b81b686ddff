-- ===== src/Ingestion.antt =====
-- src/bob/ingestion: how a repository is ingested.
pub mod Orchestrator
pub mod Networkx
pub mod Analyzer
