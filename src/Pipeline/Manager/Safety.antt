-- ===== src/Pipeline/Manager/Safety.antt =====
-- What the manager's methods keep, on return and on an error, and what sequences of calls keep.
pub mod Moves
pub mod Starting
pub mod Completing
pub mod Advancing
pub mod Calls
pub mod Consistency
pub mod Ordering
