-- ===== src/Events.antt =====
-- The lifecycle events, the hooks that they trigger, the bus and the event store (events/, hooks/).
pub mod Model
pub mod Hooks
pub mod Bus
pub mod Store
