-- ===== src/Pipeline/Manager/Running/Recovery.antt =====
-- The state that `save` writes and what the event store holds of it.
use forge_os.Base.Dict.{Dict}
use forge_os.Host.{Host}
use forge_os.Pipeline.World.{World}
