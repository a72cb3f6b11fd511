-- ===== src/Pipeline/World.antt =====
-- The files of a project that the state manager reads and writes, and its access to them.
use forge_os.Base.{◌+◌, String, Bool, Option, none, some, List, if◌then◌else◌}
use forge_os.Base.Outcome.{Action, done, raised, state_error, config_error, atomic_write_error}
use forge_os.Events.Bus.{Bus}
use forge_os.Events.Store.{EventDb}
use forge_os.Host.{Host}
use forge_os.Gates.Model.{GateCriterion}
use forge_os.Memory.Reflections.{Memory}
use forge_os.Pipeline.State.{PipelineState, Field}

-- The fields of `.forge/config.yaml` that the manager uses.
pub record ForgeConfig : Type 0 where
  pub name : String
  pub profile : String

-- `state_file`, `config` and `gate_file` are `none` where the file cannot be read or is not valid.
-- `db_works` tells whether SQLite calls on `.forge/events.db` succeed.
pub record World (host : Host) : Type 0 where
  pub state_file : Option PipelineState
  pub markdown : String
  pub config : Option ForgeConfig
  pub gate_file : Option (List (GateCriterion host.Num))
  pub bus : Bus
  pub event_db : EventDb Field
  pub db_works : Bool
  pub memory : Memory host.Num

abbrev pub state_path : String
state_path = ".forge/state.json"

abbrev pub markdown_path : String
markdown_path = "pipeline/state.md"

module _ (host : Host) where
  abbrev pub Managed : Type 0 → Type 0
  Managed A = Action (World host) A

  unfoldable pub load : Managed PipelineState
  load w = elim w.state_file [ none ↦ raised state_error w | some s ↦ done s w ]

  unfoldable pub load_config : Managed ForgeConfig
  load_config w = elim w.config [ none ↦ raised config_error w | some c ↦ done c w ]

  -- `utc_now()`
  unfoldable pub clock : Managed String
  clock w =
      done (host.utc_now w.bus.ticks) (record w { bus = record w.bus { ticks = w.bus.ticks + 1 } })

  -- `_atomic_write_text` on `.forge/state.json`: on an error the file is as it was
  unfoldable pub write_state : PipelineState → Managed (Unit {0})
  write_state s w =
      if host.writable state_path
      then done tt (record w { state_file = some s })
      else raised atomic_write_error w

  -- `_atomic_write_text` on `pipeline/state.md`
  unfoldable pub write_markdown : String → Managed (Unit {0})
  write_markdown text w =
      if host.writable markdown_path
      then done tt (record w { markdown = text })
      else raised atomic_write_error w

  unfoldable pub on_bus : {A : Type 0} → Action Bus A → Managed A
  on_bus m w = elim (m w.bus) [
    | done a b ↦ done a (record w { bus = b })
    | raised e b ↦ raised e (record w { bus = b })
  ]

  unfoldable pub on_memory : {A : Type 0} → Action (Memory host.Num) A → Managed A
  on_memory m w = elim (m w.memory) [
    | done a b ↦ done a (record w { memory = b })
    | raised e b ↦ raised e (record w { memory = b })
  ]
