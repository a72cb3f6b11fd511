-- ===== src/Pipeline/Manager/Safety/Advancing.antt =====
-- What `advance` and `override_stage` keep.
use mathlib.Core.Path.{subst}
use forge_os.Base.{suc, String, not, Option, none, some, ◌≡◌, sym, map, get_elem?, ◌==◌}
use forge_os.Host.{Host}
use forge_os.Pipeline.State.{
  PipelineState, StageState, is_active, find_stage, index_of, first_not_started,
}
use forge_os.Pipeline.World.{load, clock}
use forge_os.Pipeline.Saving.{save, log_transition}
use forge_os.Pipeline.Manager.{
  raise_if, require, start_stage, complete_stage, close_pipeline, advance_idle, advance_from,
  advance, overridden, override_stage,
}
use forge_os.Pipeline.Manager.Spec.{View, view, entry, Step, Override}
use forge_os.Pipeline.Manager.Keeping.{
  Triple, bind, load_rule, raise_if_rule, require_rule, forget, strengthen,
}
use forge_os.Pipeline.Manager.Keeping.Saves.{clock_rule, save_rule, log_rule}
use forge_os.Pipeline.Manager.Safety.Moves.{found_id, overridden-Override}
use forge_os.Pipeline.Manager.Safety.Starting.{Idle, idle, start_stage_rule}
use forge_os.Pipeline.Manager.Safety.Completing.{complete_stage_rule}

module _ (host : Host) where
  module _ (I : View → Type 0) where
    sub : (c : View) → I c → I c
    sub c h = h

    module _ (closed : (c d : View) → Step c d → I c → I d) where
      close_rule : Triple host (Idle I) (close_pipeline host) (λ _. Unit) I I
      unfolding close_pipeline
      close_rule = bind host (load host) _ (load_rule host (idle I)) λ state h.
          forget host (save host (record state { current_stage_id = none })) (
            save_rule host (idle I) I sub (record state { current_stage_id = none })
              (subst I (λ j. record { current = h.1 j; stages = map entry state.stages }) h.0))

      advance_from_rule :
          (state : PipelineState) (current_id : String)
          → Triple host I (advance_from host state current_id) (λ _. Unit) I I
      unfolding advance_from
      advance_from_rule state current_id =
          bind host (require host _ (index_of current_id state.stages)) _
            (require_rule host sub _ _)
            λ i _.
              bind host (require host _ (get_elem? state.stages i)) _ (require_rule host sub _ _)
                λ stage _.
                  bind host (raise_if host (not (is_active stage.status)) _) _
                    (raise_if_rule host sub _ _)
                    λ _ _.
                      bind host (complete_stage host current_id) _
                        (complete_stage_rule host I closed current_id)
                        λ _ _. go_on (get_elem? state.stages (suc i))
        where
          go_on :
              (o : Option StageState)
              → Triple host
                  (Idle I)
                  (elim o [
                    | none ↦ close_pipeline host
                    | some next ↦ start_stage host next.stage_id
                  ])
                  (λ _. Unit)
                  I
                  I
          go_on none = close_rule
          go_on (some next) =
              strengthen host (idle I) (start_stage host next.stage_id)
                (start_stage_rule host I closed next.stage_id)

      pub advance_rule : Triple host I (advance host) (λ _. Unit) I I
      unfolding advance advance_idle
      advance_rule =
          bind host (load host) _ (load_rule host sub) λ state _. pick state state.current_stage_id
        where
          pick :
              (state : PipelineState) (o : Option String)
              → Triple host I
                  (elim o [ none ↦ advance_idle host state | some i ↦ advance_from host state i ])
                  (λ _. Unit)
                  I
                  I
          pick state none =
              bind host (require host _ (first_not_started state.stages)) _
                (require_rule host sub _ _) λ next _. start_stage_rule host I closed next.stage_id
          pick state (some i) = advance_from_rule state i

    module _ (closed : (c d : View) → Override c d → I c → I d) where
      pub override_stage_rule :
          (stage_id reason : String)
          → Triple host I (override_stage host stage_id reason) (λ _. Unit) I I
      unfolding override_stage
      override_stage_rule stage_id reason =
          bind host (raise_if host (host.strip reason == "") _) _ (raise_if_rule host sub _ _)
            λ _ _. bind host (load host) _ (load_rule host sub) λ state h.
              bind host (require host _ (find_stage stage_id state.stages)) _
                (require_rule host sub _ _)
                λ target hs. bind host (clock host) _ (clock_rule host sub) λ time _.
                  let next : PipelineState = overridden host state target.stage_id time in
                  let h' : I (view next) =
                    closed (view state) (view next)
                      (overridden-Override host state target.stage_id target time
                        (find_self state target hs))
                      h in
                  bind host (save host next) _ (save_rule host sub I sub next h') λ saved e.
                    forget host
                      (log_transition host "StageOverride" saved target.stage_id
                        (some (host.strip reason)))
                      (log_rule host sub I "StageOverride" saved target.stage_id
                        (some (host.strip reason)) (subst I (sym e) h'))
        where
          find_self :
              (state : PipelineState) (target : StageState)
              → find_stage stage_id state.stages ≡ some target
              → find_stage target.stage_id state.stages ≡ some target
          find_self state target h =
              let e : stage_id ≡ target.stage_id = found_id stage_id state.stages target h in
              subst (λ i. find_stage i state.stages ≡ some target) e h
