-- ===== src/Matrix.antt =====
-- Matrix runs: server/matrixService.js, server/matrixOrchestrator.js, server/matrixCoverage.js and
-- server/matrixQuestionPolicy.js.
pub mod Item
pub mod Honest
pub mod Bulk
pub mod Lifecycle
pub mod Execute
pub mod Drain
pub mod Policy
pub mod Launch
pub mod Coverage
pub mod Wait
