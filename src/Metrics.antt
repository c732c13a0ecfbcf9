-- ===== src/Metrics.antt =====
-- inference-api/src/metrics/metrics.service.ts, its controller metrics.controller.ts and the types of
-- interfaces.ts, with the database of inference-api/src/metrics/clickhouse.service.ts as a parameter.
pub mod Windows
pub mod Queries
pub mod Recording
pub mod Reports
pub mod Outages
mod Tests
