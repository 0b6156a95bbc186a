-- ===== src/Sqa.antt =====
-- The quality-assurance assessment: the scope of server/sqaCatalog.js and the decisions of
-- server/sqaAssessment.js.
pub mod Types
pub mod Scope
pub mod Observation
pub mod Gates
pub mod Assessment
