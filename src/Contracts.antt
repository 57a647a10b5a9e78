-- ===== src/Contracts.antt =====
-- packages/cwap_contracts: the data that crosses a service boundary, and its validators.
pub mod Graph
pub mod Job
