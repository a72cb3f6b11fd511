-- ===== src/Pipeline/Manager/Safety/Moves.antt =====
-- The states that the manager computes are steps of the specification from the state it loaded.
use forge_os.Base.{
  ℕ, String, true, false, none, some, List, ◌≡◌, refl, ap, sym, ◌∙◌, arith, any, map, eq_iff,
  find?-some, get_elem?, ◌==◌,
}
use forge_os.Host.{Host}
use forge_os.Gates.Model.{GateResult}
use forge_os.Pipeline.State.{
  PipelineState, StageState, is_active, is_complete, active, blocked, complete, find_stage,
  index_of, previous, update_stage, activate, finish, block,
}
use forge_os.Pipeline.Manager.{gate_block_reason, stage_blocked_state, completed, overridden}
use forge_os.Pipeline.Manager.Spec.{
  view, entry, Step, begins, finishes, blocks, Override, overrides, entries-update_stage,
  entries-force, has_active-entries, status_of-find, status_of-index, prev_ok, is_ready-previous,
  status_of,
}

pub started-Step :
    (state : PipelineState) (stage_id : String) (i : ℕ) (stage : StageState) (time : String)
    → index_of stage_id state.stages ≡ some i
    → get_elem? state.stages i ≡ some stage
    → is_complete stage.status ≡ false
    → any (λ s. is_active s.status) state.stages ≡ false
    → prev_ok (previous i state.stages) ≡ true
    → Step (view state) (
        view (record state {
          stages = update_stage stage_id (activate time) state.stages;
          current_stage_id = some stage_id;
        }))
started-Step state stage_id i stage time hi hs hc ha hp =
    begins stage_id stage.status (status_of-index stage_id state.stages i stage hi hs) hc
      (has_active-entries state.stages ∙ ha) (is_ready-previous stage_id state.stages i hi ∙ hp)
      (λ j. record {
        current = some stage_id;
        stages =
            entries-update_stage stage_id (activate time) active state.stages
              (unfold activate in (λ s. refl)) j;
      })

pub active_of : (stage : StageState) → is_active stage.status ≡ true → stage.status ≡ active
active_of stage h = ground arith

pub active-find :
    (state : PipelineState) (stage_id : String) (stage : StageState)
    → find_stage stage_id state.stages ≡ some stage
    → is_active stage.status ≡ true
    → status_of stage_id (map entry state.stages) ≡ some active
active-find state stage_id stage hs ha =
    status_of-find stage_id state.stages stage hs ∙ ap some (active_of stage ha)

pub blocked-Step :
    (host : Host) (state : PipelineState) (stage_id : String) (results : List GateResult)
    → status_of stage_id (map entry state.stages) ≡ some active
    → Step (view state) (view (stage_blocked_state host state stage_id results))
unfolding stage_blocked_state
blocked-Step host state stage_id results ha = blocks stage_id ha (λ j. record {
  current = state.current_stage_id;
  stages =
      entries-update_stage stage_id (block (gate_block_reason host results)) blocked state.stages
        (unfold block in (λ s. refl)) j;
})

pub completed-Step :
    (host : Host) (state : PipelineState) (stage_id : String) (results : List GateResult)
    (now : String)
    → status_of stage_id (map entry state.stages) ≡ some active
    → Step (view state) (view (completed host state stage_id results now))
unfolding completed
completed-Step host state stage_id results now ha = finishes stage_id ha (λ j. record {
  current = none;
  stages =
      entries-update_stage stage_id (finish now) complete state.stages
        (unfold finish in (λ s. refl)) j;
})

pub found_id :
    (stage_id : String) (ss : List StageState) (s : StageState)
    → find_stage stage_id ss ≡ some s
    → stage_id ≡ s.stage_id
found_id stage_id ss s h =
    sym ((eq_iff s.stage_id stage_id).0 (find?-some (λ x. x.stage_id == stage_id) ss s h).1)

pub overridden-Override :
    (host : Host) (state : PipelineState) (stage_id : String) (target : StageState) (time : String)
    → find_stage stage_id state.stages ≡ some target
    → Override (view state) (view (overridden host state stage_id time))
unfolding overridden
overridden-Override host state stage_id target time hs =
    overrides stage_id target.status (status_of-find stage_id state.stages target hs)
      (λ j. record { current = some stage_id; stages = entries-force stage_id time state.stages j })
