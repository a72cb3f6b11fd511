-- ===== src/Pipeline/Manager/Running/Finishes.antt =====
-- An active stage whose gates pass does complete.
use mathlib.Core.Path.{subst}
use forge_os.Base.{
  ◌+◌, String, Bool, true, false, not, none, some, List, ◌≡◌, refl, ap, sym, ◌∙◌, arith, any,
  if◌then◌else◌,
}
use forge_os.Host.{Host}
use forge_os.Gates.Model.{GateResult}
use forge_os.Gates.Coordinator.{has_blocking_failures}
use forge_os.Gates.Coordinator.Stage.{evaluate_stage}
use forge_os.Pipeline.State.{PipelineState, StageState, complete, is_active, find_stage, finish}
use forge_os.Pipeline.World.{World, Managed, load, clock}
use forge_os.Pipeline.Saving.{save, log_transition}
use forge_os.Pipeline.Manager.{
  raise_if, require, evaluate_gates_for_stage, completed, reflect, finish_stage, block_stage,
  complete_stage,
}
use forge_os.Pipeline.Manager.Spec.{View, view, set_status, entries-update_stage}
use forge_os.Pipeline.Manager.Running.{
  MustDone, MustDone-bind, MustDone-then, IsWritable, IsReviewable, IsCalm, IsSameRest,
  IsCalm-IsSaved,
}
use forge_os.Pipeline.Manager.Running.Writes.{
  save-MustDone, log_transition-MustDone, on_bus-MustDone,
}
use forge_os.Pipeline.Manager.Running.Starts.{load-done, require-done, raise_if-done, IsCalm-rest}
use forge_os.Pipeline.Manager.Running.Completes.{reflect-MustDone, evaluate_stage-MustDone}

module _ (host : Host) where
  -- what a completion leaves: the state in its file, the environment as calm as before
  abbrev pub IsDone : View → PipelineState → World host → Type 0
  IsDone after t v = IsCalm host v × (v.state_file ≡ some t) × (view t ≡ after)

  abbrev pub completed_view : PipelineState → String → View
  completed_view s stage_id = record {
    current = none;
    stages = set_status stage_id complete (view s).stages;
  }

module _ (host : Host) (writable : IsWritable host) (review : IsReviewable host) where
  completed-view :
      (s : PipelineState) (stage_id : String) (results : List GateResult) (now : String)
      → view (completed host s stage_id results now) ≡ completed_view host s stage_id
  unfolding completed finish
  completed-view s stage_id results now = λ j. record {
    current = none;
    stages = entries-update_stage stage_id (finish now) complete s.stages (λ x. refl) j;
  }

  evaluate_gates_for_stage-MustDone :
      (stage_id : String) (w : World host) (c : IsCalm host w)
      → MustDone
          (evaluate_gates_for_stage host stage_id w)
          (λ results v. (has_blocking_failures results ≡ false) × IsSameRest host w v)
  unfolding evaluate_gates_for_stage
  evaluate_gates_for_stage-MustDone stage_id w c =
      on_bus-MustDone host (λ results. has_blocking_failures results ≡ false) _ w
        (subst
          (λ file.
            MustDone
              (evaluate_stage host (record { gate_file = file; has_bus = true }) stage_id w.bus)
              (λ results v. (has_blocking_failures results ≡ false) × (v.hooks ≡ w.bus.hooks)))
          (sym c.gated)
          (evaluate_stage-MustDone host review c.gates stage_id w.bus c.quiet (c.passing stage_id)))

  finish_stage-MustDone :
      (s : PipelineState) (stage_id : String) (results : List GateResult) (w : World host)
      → IsCalm host w
      → MustDone
          (finish_stage host s stage_id results w)
          (IsDone host (completed_view host s stage_id))
  unfolding finish_stage clock
  finish_stage-MustDone s stage_id results w c =
      let next : PipelineState = completed host s stage_id results (host.utc_now w.bus.ticks) in
      let u : World host = record w { bus = record w.bus { ticks = w.bus.ticks + 1 } } in
      let cu : IsCalm host u = IsCalm-rest host w u c (refl, refl, refl, refl, refl) in
      MustDone-bind _ _ (save host next) _ u (save-MustDone host writable u cu next)
        (λ saved x (k, stamped).
          let cx : IsCalm host x = IsCalm-IsSaved host u x saved cu k in
          MustDone-bind _ _ (log_transition host "StageCompleted" saved stage_id none) _ x
            (log_transition-MustDone host writable x cx "StageCompleted" saved stage_id none)
            (λ logged y (l, same_view).
              let cy : IsCalm host y = IsCalm-IsSaved host x y logged cx l in
              MustDone-bind _ _ (reflect host stage_id) _ y
                (reflect-MustDone host review stage_id y cy.lessons)
                (λ _ z r. (
                  record {
                    config = cy.config;
                    configured = r.1 ∙ cy.configured;
                    quiet = ap (any (λ h. h.blocking)) r.2 ∙ cy.quiet;
                    gates = cy.gates;
                    gated = r.3 ∙ cy.gated;
                    passing = cy.passing;
                    lessons = r.4;
                  },
                  r.0 ∙ l.file,
                  same_view
                      ∙ ap view stamped
                      ∙ completed-view s stage_id results (host.utc_now w.bus.ticks),
                ))))

  else-MustDone :
      (b : Bool) (m n : Managed host PipelineState) (w : World host)
      (Q : PipelineState → World host → Type 0)
      → b ≡ false
      → MustDone (n w) Q
      → MustDone ((if b then m else n) w) Q
  else-MustDone true m n w Q e h = absurd (ground (arith, e))
  else-MustDone false m n w Q e h = h

  pub complete_stage-MustDone :
      (w : World host) (s : PipelineState) (stage_id : String) (stage : StageState)
      → IsCalm host w
      → w.state_file ≡ some s
      → find_stage stage_id s.stages ≡ some stage
      → is_active stage.status ≡ true
      → MustDone (complete_stage host stage_id w) (IsDone host (completed_view host s stage_id))
  unfolding complete_stage
  complete_stage-MustDone w s stage_id stage c e found act =
      MustDone-then _ (load host) _ w w s (load-done host w s e) (
        MustDone-then _ (require host _ (find_stage stage_id s.stages)) _ w w stage
          (require-done host _ _ stage w found)
          (MustDone-then _ (raise_if host (not (is_active stage.status)) _) _ w w tt
            (raise_if-done host _ _ w (ap not act))
            (MustDone-bind _ _ (evaluate_gates_for_stage host stage_id) _ w
              (evaluate_gates_for_stage-MustDone stage_id w c)
              (λ results v (clear, same).
                else-MustDone (has_blocking_failures results) (block_stage host s stage_id results)
                  (finish_stage host s stage_id results) v
                  (IsDone host (completed_view host s stage_id)) clear
                  (finish_stage-MustDone s stage_id results v (IsCalm-rest host w v c same))))))
