-- ===== src/Pipeline/Saving.antt =====
-- core/state_manager.py: `save`, `log_transition` and `render_state_markdown`.
use forge_os.Base.{
  ℕ, String, Option, none, some, List, [], ◌∷◌, ◌++◌, ◌<>◌, map, if◌then◌else◌, ◌==◌,
}
use forge_os.Base.Outcome.{done, pure, ◌>>=◌, ◌>>◌}
use forge_os.Events.Model.{Value, text, null, LifecycleEvent, new_event}
use forge_os.Events.Bus.{emit}
use forge_os.Events.Store.{append_state_event}
use forge_os.Host.{Host}
use forge_os.Pipeline.State.{
  PipelineState, StageState, StageStatus, not_started, active, blocked, review_needed, complete,
  skipped, model_dump,
}
use forge_os.Pipeline.World.{
  Managed, ForgeConfig, load_config, clock, write_state, write_markdown, on_bus,
}

show_status : StageStatus → String
show_status not_started = "not_started"
show_status active = "active"
show_status blocked = "blocked"
show_status review_needed = "review_needed"
show_status complete = "complete"
show_status skipped = "skipped"

-- `"\n".join(lines)`
unfoldable pub join : String → List String → String
join sep [] = ""
join sep (l ∷ []) = l
join sep (l ∷ m ∷ ls) = l <> (sep <> join sep (m ∷ ls))

stage_line : StageState → String
unfolding show_status
stage_line s = "- " <> (s.stage_id <> (": " <> show_status s.status))

current_text : Option String → String
current_text none = "none"
current_text (some s) = if s == "" then "none" else s

unfoldable pub render_state_markdown : ForgeConfig → PipelineState → String
unfolding join stage_line current_text
render_state_markdown config state = join "\n" (
    "# Forge Pipeline State"
      ∷ ""
      ∷ "This file is generated from `.forge/state.json`. Do not treat it as canonical."
      ∷ ""
      ∷ ("- Project: " <> config.name)
      ∷ ("- Profile: " <> config.profile)
      ∷ ("- State schema version: " <> state.schema_version)
      ∷ ("- Current stage: " <> current_text state.current_stage_id)
      ∷ ("- Updated at: " <> state.updated_at)
      ∷ ""
      ∷ "## Stages"
      ∷ ""
      ∷ map stage_line state.stages
    ++ "" ∷ [])

module _ (host : Host) where
  -- the best-effort dual write: an error of the event store is swallowed
  unfoldable pub dual_write : PipelineState → Managed host (Unit {0})
  dual_write state w =
      if w.db_works
      then done tt (record w {
        event_db =
            (append_state_event w.event_db ("project/" <> state.project_id) (model_dump state)
              (host.utc_now w.bus.ticks)).0;
      })
      else done tt w

  -- `save` also sets the time in the caller's object, which it hands back here
  unfoldable pub save : PipelineState → Managed host PipelineState
  unfolding dual_write clock write_state load_config write_markdown
  save state = do
    now ← clock host
    let stamped = record state { updated_at = now }
    write_state host stamped
    config ← load_config host
    write_markdown host (render_state_markdown config stamped)
    dual_write stamped
    pure stamped

  pub transition_payload : PipelineState → Option String → List (String × Value ℕ)
  transition_payload state reason =
      ("project_id", text state.project_id)
      ∷ ("reason", elim reason [ none ↦ null | some r ↦ text r ])
      ∷ []

  -- `emit_transition` of the event bus, which builds the event from the clock and `uuid4`
  unfoldable pub emit_transition :
      String → PipelineState → String → Option String → Managed host LifecycleEvent
  unfolding transition_payload on_bus clock
  emit_transition event_type state stage_id reason w =
      let event =
        new_event (host.uuid w.bus.ticks) (host.utc_now w.bus.ticks) event_type (some stage_id)
          "core" "state-manager" (transition_payload state reason) in
      (do clock host; on_bus host (emit event); pure event) w

  unfoldable pub log_transition :
      String → PipelineState → String → Option String → Managed host PipelineState
  unfolding emit_transition write_state
  log_transition event_type state stage_id reason = do
    event ← emit_transition event_type state stage_id reason
    let logged = record state { last_event_id = some event.event_id }
    write_state host logged
    pure logged
