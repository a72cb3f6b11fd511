-- ===== src/Pipeline/Manager.antt =====
-- core/state_manager.py: the transitions of the pipeline.
pub mod Spec
pub mod Keeping
pub mod Safety
pub mod Gating
pub mod Running
use forge_os.Base.{
  ℕ, suc, ◌+◌, String, Bool, true, false, not, Option, none, some, List, [], ◌∷◌, ◌<>◌, map, any,
  filter, if◌then◌else◌, ◌==◌, get_elem?, is_none, length, ltb,
}
use forge_os.Base.Dict.{insert}
use forge_os.Base.Outcome.{
  Action, Outcome, done, raised, raise, pure, Error, transition_error, ◌>>=◌, ◌>>◌,
}
use forge_os.Host.{Host}
use forge_os.Gates.Model.{GateResult}
use forge_os.Gates.Coordinator.{has_blocking_failures}
use forge_os.Gates.Coordinator.Stage.{GateCoordinator, evaluate_stage}
use forge_os.Memory.Reflections.{record_stage_completion}
use forge_os.Pipeline.State.{
  PipelineState, StageState, StageStatus, is_active, is_complete, find_stage, index_of,
  first_not_started, previous, update_stage, activate, finish, block, force,
}
use forge_os.Pipeline.World.{World, Managed, load, clock, on_bus, on_memory}
use forge_os.Pipeline.Saving.{save, log_transition, join}

abbrev pub unknown_stage : String → Error
unknown_stage stage_id = transition_error ("Unknown stage `" <> (stage_id <> "`."))

module _ (host : Host) where
  -- `if test: raise error`
  abbrev pub raise_if : Bool → Error → Managed host (Unit {0})
  raise_if true e = raise e
  raise_if false e = pure tt

  abbrev pub require : {A : Type 0} → Error → Option A → Managed host A
  require e none = raise e
  require e (some a) = pure a

  -- the test `index > 0 and state.stages[index - 1].status != "complete"`
  abbrev pub check_previous : Option StageState → Managed host (Unit {0})
  check_previous none = pure tt
  check_previous (some p) =
      raise_if (not (is_complete p.status))
        (transition_error ("Previous stage `" <> (p.stage_id <> "` must be complete first.")))

  -- `stage.entered_at or utc_now()`
  abbrev pub entered : Option String → Managed host String
  entered none = clock host
  entered (some t) = if t == "" then clock host else pure t

  unfoldable pub started : PipelineState → String → String → PipelineState
  started state stage_id time = record state {
    stages = update_stage stage_id (activate time) state.stages;
    current_stage_id = some stage_id;
  }

  -- the refusals of `start_stage`, in their order
  unfoldable pub check_start : PipelineState → String → StageState → ℕ → Managed host (Unit {0})
  check_start state stage_id stage index = do
    raise_if (is_active stage.status)
        (transition_error ("Stage `" <> (stage_id <> "` is already active.")))
    raise_if (is_complete stage.status)
        (transition_error ("Stage `" <> (stage_id <> "` is already complete.")))
    raise_if (any (λ s. is_active s.status) state.stages) (
        transition_error
          "Another stage is already active. Complete it before starting a new stage.")
    check_previous (previous index state.stages)

  unfoldable pub start_stage : String → Managed host PipelineState
  unfolding check_start started
  start_stage stage_id = do
    state ← load host
    index ← require (unknown_stage stage_id) (index_of stage_id state.stages)
    stage ← require (unknown_stage stage_id) (get_elem? state.stages index)
    check_start state stage_id stage index
    time ← entered stage.entered_at
    saved ← save host (started state stage_id time)
    log_transition host "StageStarted" saved stage_id none

  -- `_evaluate_gates_for_stage`, without the assignment to `state.gates`
  unfoldable pub evaluate_gates_for_stage : String → Managed host (List GateResult)
  evaluate_gates_for_stage stage_id w =
      on_bus host
        (evaluate_stage host (record { gate_file = w.gate_file; has_bus = true }) stage_id) w

  -- `state.gates[stage_id] = {...}`
  unfoldable pub gated : PipelineState → String → List GateResult → PipelineState
  gated state stage_id results = record state {
    gates =
        insert stage_id (record { blocked = has_blocking_failures results; results = results })
          state.gates;
  }

  unfoldable pub gate_block_reason : List GateResult → String
  gate_block_reason results =
      let blocking = filter (λ r. r.blocking) results in
      elim blocking [
        | [] ↦ "Gate evaluation blocked this stage."
        | r ∷ rs ↦ join "; " (map (λ b. b.summary) (r ∷ rs))
      ]

  unfoldable pub stage_blocked_state : PipelineState → String → List GateResult → PipelineState
  unfolding gated
  stage_blocked_state state stage_id results = record (gated state stage_id results) {
    stages = update_stage stage_id (block (gate_block_reason results)) state.stages;
  }

  unfoldable pub completed : PipelineState → String → List GateResult → String → PipelineState
  unfolding gated
  completed state stage_id results now = record (gated state stage_id results) {
    stages = update_stage stage_id (finish now) state.stages;
    current_stage_id = none;
  }

  -- `_record_stage_completion_reflection`: the clock and `uuid4` are read twice each
  unfoldable pub reflect : String → Managed host (Unit {0})
  reflect stage_id w =
      (do
        now ← clock host
        now' ← clock host
        on_memory host (
            record_stage_completion host (host.uuid w.bus.ticks) now (host.uuid (w.bus.ticks + 1))
              now' stage_id)
        pure tt)
        w

  -- the branch in which a gate blocks
  unfoldable pub block_stage : PipelineState → String → List GateResult → Managed host PipelineState
  unfolding stage_blocked_state
  block_stage state stage_id results = do
    saved ← save host (stage_blocked_state state stage_id results)
    log_transition host "StageBlocked" saved stage_id none
    raise (transition_error (gate_block_reason results))

  unfoldable pub finish_stage :
      PipelineState → String → List GateResult → Managed host PipelineState
  unfolding completed reflect
  finish_stage state stage_id results = do
    now ← clock host
    saved ← save host (completed state stage_id results now)
    logged ← log_transition host "StageCompleted" saved stage_id none
    reflect stage_id
    pure logged

  unfoldable pub complete_stage : String → Managed host PipelineState
  unfolding evaluate_gates_for_stage block_stage finish_stage
  complete_stage stage_id = do
    state ← load host
    stage ← require (unknown_stage stage_id) (find_stage stage_id state.stages)
    raise_if (not (is_active stage.status))
        (transition_error ("Stage `" <> (stage_id <> "` must be active before it can complete.")))
    results ← evaluate_gates_for_stage stage_id
    if has_blocking_failures results
        then block_stage state stage_id results
        else finish_stage state stage_id results

  -- the end of the pipeline in `advance`
  unfoldable pub close_pipeline : Managed host PipelineState
  close_pipeline = do state ← load host; save host (record state { current_stage_id = none })

  -- `advance` with no current stage
  unfoldable pub advance_idle : PipelineState → Managed host PipelineState
  unfolding start_stage
  advance_idle state = do
    next ←
        require (transition_error "Pipeline is already complete.") (first_not_started state.stages)
    start_stage next.stage_id

  -- `advance` with a current stage; the next stage is that of the state that was loaded first
  unfoldable pub advance_from : PipelineState → String → Managed host PipelineState
  unfolding start_stage complete_stage close_pipeline
  advance_from state current_id = do
    index ← require (unknown_stage current_id) (index_of current_id state.stages)
    stage ← require (unknown_stage current_id) (get_elem? state.stages index)
    raise_if (not (is_active stage.status))
        (transition_error ("Current stage `" <> (current_id <> "` is not active.")))
    complete_stage current_id
    elim (get_elem? state.stages (suc index)) [
      | none ↦ close_pipeline
      | some next ↦ start_stage next.stage_id
    ]

  unfoldable pub advance : Managed host PipelineState
  unfolding advance_idle advance_from
  advance = do
    state ← load host
    elim state.current_stage_id [
      | none ↦ advance_idle state
      | some current_id ↦ advance_from state current_id
    ]

  unfoldable pub overridden : PipelineState → String → String → PipelineState
  overridden state stage_id timestamp = record state {
    stages = map (force stage_id timestamp) state.stages;
    current_stage_id = some stage_id;
  }

  unfoldable pub override_stage : String → String → Managed host PipelineState
  unfolding overridden
  override_stage stage_id reason = do
    raise_if (host.strip reason == "") (transition_error "Override requires a non-empty reason.")
    state ← load host
    target ← require (unknown_stage stage_id) (find_stage stage_id state.stages)
    timestamp ← clock host
    saved ← save host (overridden state target.stage_id timestamp)
    log_transition host "StageOverride" saved target.stage_id (some (host.strip reason))
