-- ===== src/Pipeline/Manager/Safety/Completing.antt =====
-- What `complete_stage` keeps.
use mathlib.Core.Path.{subst}
use forge_os.Base.{◌+◌, String, true, not, none, some, List, ◌≡◌, refl, sym, arith}
use forge_os.Base.Outcome.{Action, after, pure, ◌>>=◌, ◌>>◌}
use forge_os.Host.{Host}
use forge_os.Gates.Model.{GateResult}
use forge_os.Gates.Coordinator.{has_blocking_failures}
use forge_os.Gates.Coordinator.Stage.{evaluate_stage}
use forge_os.Memory.Reflections.{Memory, Reflection, record_stage_completion}
use forge_os.Pipeline.State.{PipelineState, StageState, is_active, find_stage}
use forge_os.Pipeline.World.{World, Managed, load, clock, on_memory}
use forge_os.Pipeline.Saving.{save, log_transition}
use forge_os.Pipeline.Manager.{
  raise_if, require, evaluate_gates_for_stage, stage_blocked_state, completed, reflect, block_stage,
  finish_stage, complete_stage,
}
use forge_os.Pipeline.Manager.Spec.{View, view, Step}
use forge_os.Pipeline.Manager.Keeping.{
  Triple, bind, load_rule, raise_rule, raise_if_rule, require_rule, frame_rule, return_rule,
  if_rule,
}
use forge_os.Pipeline.Manager.Keeping.Saves.{
  clock_rule, save_rule, log_rule, bus_frame, memory_frame, bind_frame, clock_frame,
}
use forge_os.Pipeline.Manager.Safety.Moves.{active-find, blocked-Step, completed-Step}
use forge_os.Pipeline.Manager.Safety.Starting.{Idle, idle}

module _ (host : Host) where
  module _ (I : View → Type 0) where
    sub : (c : View) → I c → I c
    sub c h = h

    module _ (closed : (c d : View) → Step c d → I c → I d) where
      reflect_frame :
          (stage_id : String) (w : World host)
          → (after (reflect host stage_id w)).state_file ≡ w.state_file
      unfolding reflect
      reflect_frame stage_id w =
          bind_frame host (clock host) (λ now. clock host >>= λ now'. write now now')
            (clock_frame host)
            (λ now. bind_frame host (clock host) (write now) (clock_frame host) (λ now'.
              bind_frame host (on_memory host (recorded now now')) (λ _. pure tt)
                (memory_frame host (recorded now now')) (λ _ v. refl)))
            w
        where
          recorded : String → String → Action (Memory host.Num) Reflection
          recorded now now' =
              record_stage_completion host (host.uuid w.bus.ticks) now (host.uuid (w.bus.ticks + 1))
                now' stage_id

          write : String → String → Managed host (Unit {0})
          write now now' = on_memory host (recorded now now') >> pure tt

      gates_frame :
          (stage_id : String) (w : World host)
          → (after (evaluate_gates_for_stage host stage_id w)).state_file ≡ w.state_file
      unfolding evaluate_gates_for_stage
      gates_frame stage_id w =
          bus_frame host
            (evaluate_stage host (record { gate_file = w.gate_file; has_bus = true }) stage_id) w

      block_stage_rule :
          (state : PipelineState) (stage_id : String) (stage : StageState)
          (results : List GateResult)
          → find_stage stage_id state.stages ≡ some stage
          → is_active stage.status ≡ true
          → I (view state)
          → Triple host I (block_stage host state stage_id results) (λ _. Unit) (Idle I) I
      unfolding block_stage
      block_stage_rule state stage_id stage results hs ha h =
          let next : PipelineState = stage_blocked_state host state stage_id results in
          let h' : I (view next) =
            closed (view state) (view next)
              (blocked-Step host state stage_id results (active-find state stage_id stage hs ha))
              h in
          bind host (save host next) _ (save_rule host sub I sub next h') λ saved e.
            bind host (log_transition host "StageBlocked" saved stage_id none) _
              (log_rule host sub I "StageBlocked" saved stage_id none (subst I (sym e) h'))
              λ _ _. raise_rule host sub (λ _. Unit) (Idle I) _

      finish_stage_rule :
          (state : PipelineState) (stage_id : String) (stage : StageState)
          (results : List GateResult)
          → find_stage stage_id state.stages ≡ some stage
          → is_active stage.status ≡ true
          → I (view state)
          → Triple host I (finish_stage host state stage_id results) (λ _. Unit) (Idle I) I
      unfolding finish_stage
      finish_stage_rule state stage_id stage results hs ha h =
          bind host (clock host) _ (clock_rule host sub) λ now _.
            let next : PipelineState = completed host state stage_id results now in
            let h' : (Idle I) (view next) = (
              closed (view state) (view next)
                  (completed-Step host state stage_id results now
                    (active-find state stage_id stage hs ha))
                  h,
              unfold completed in refl,
            ) in
            bind host (save host next) _ (save_rule host sub (Idle I) (idle I) next h') λ saved e.
              bind host (log_transition host "StageCompleted" saved stage_id none) _
                (log_rule host (idle I) (Idle I) "StageCompleted" saved stage_id none
                  (subst (Idle I) (sym e) h'))
                λ logged _.
                  bind host (reflect host stage_id) _
                    (frame_rule host (idle I) (reflect host stage_id) (reflect_frame stage_id))
                    λ _ _. return_rule host (Idle I) (λ _. Unit) logged tt

      pub complete_stage_rule :
          (stage_id : String) → Triple host I (complete_stage host stage_id) (λ _. Unit) (Idle I) I
      unfolding complete_stage
      complete_stage_rule stage_id = bind host (load host) _ (load_rule host sub) λ state h.
          bind host (require host _ (find_stage stage_id state.stages)) _
            (require_rule host sub _ _)
            λ stage hs.
              bind host (raise_if host (not (is_active stage.status)) _) _
                (raise_if_rule host sub _ _)
                λ _ ha.
                  bind host (evaluate_gates_for_stage host stage_id) _
                    (frame_rule host sub (evaluate_gates_for_stage host stage_id)
                      (gates_frame stage_id))
                    λ results _.
                      if_rule host (has_blocking_failures results)
                        (block_stage host state stage_id results)
                        (finish_stage host state stage_id results)
                        (block_stage_rule state stage_id stage results hs (ground arith) h)
                        (finish_stage_rule state stage_id stage results hs (ground arith) h)
