-- ===== src/Memory.antt =====
-- The project's memory (memory/): lessons, and the reflections on completed stages.
pub mod Lessons
pub mod Reflections
