-- ===== src/Gates.antt =====
-- The quality gates (gates/).
pub mod Model
pub mod Evaluator
pub mod Coordinator
