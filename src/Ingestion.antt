-- ===== src/Ingestion.antt =====
-- internal/ingestion: civil dates and the catalog of jobs.
pub mod Dates
pub mod Catalog
