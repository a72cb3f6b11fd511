-- ===== src/Pipeline.antt =====
-- The pipeline of stages and its manager (core/state_manager.py, schemas/state.py).
pub mod State
pub mod World
pub mod Saving
pub mod Manager
