-- ===== src/Pipeline/Manager/Running/Starts.antt =====
-- A stage that may start does start.
use mathlib.Core.Path.{subst}
use forge_os.Base.{
  ℕ, zero, suc, String, Bool, true, false, Option, none, some, List, [], ◌∷◌, ◌≡◌, refl, ap, sym,
  ◌∙◌, arith, any, ◌==◌, if◌then◌else◌, get_elem?,
}
use forge_os.Base.Outcome.{Outcome, done, raised, pure, Error, ◌>>=◌}
use forge_os.Host.{Host}
use forge_os.Pipeline.State.{
  PipelineState, StageState, active, is_active, is_complete, index_of, previous, activate,
}
use forge_os.Pipeline.World.{World, load, clock}
use forge_os.Pipeline.Saving.{save, log_transition}
use forge_os.Pipeline.Manager.{
  raise_if, require, check_previous, check_start, entered, started, start_stage,
}
use forge_os.Pipeline.Manager.Spec.{View, view, set_status, prev_ok, entries-update_stage}
use forge_os.Pipeline.Manager.Running.{
  HasLessons, MustDone, MustDone-bind, MustDone-then, IsWritable, IsCalm, IsSaved, IsSameRest,
  IsCalm-IsSaved,
}
use forge_os.Pipeline.Manager.Running.Writes.{save-MustDone, log_transition-MustDone}

get_elem?-quiet :
    (ss : List StageState) (i : ℕ) (s : StageState)
    → get_elem? ss i ≡ some s
    → any (λ x. is_active x.status) ss ≡ false
    → is_active s.status ≡ false
get_elem?-quiet [] i s e q = absurd (ground (arith, e))
get_elem?-quiet (x ∷ ss) zero s e q = ground (arith, e, q)
get_elem?-quiet (x ∷ ss) (suc i) s e q = ground (arith, get_elem?-quiet ss i s, e, q)

-- What `start_stage` asks of a state: the stage stands at place `index`, is not complete, no stage is
-- active, and the stage before it is complete.
pub record IsStartable (s : PipelineState) (stage_id : String) : Type 0 where
  pub index : ℕ
  pub stage : StageState
  pub indexed : index_of stage_id s.stages ≡ some index
  pub found : get_elem? s.stages index ≡ some stage
  pub unfinished : is_complete stage.status ≡ false
  pub idle : any (λ x. is_active x.status) s.stages ≡ false
  pub ready : prev_ok (previous index s.stages) ≡ true

module _ (host : Host) where
  pub load-done :
      (w : World host) (s : PipelineState) → w.state_file ≡ some s → load host w ≡ done s w
  unfolding load
  load-done w s e = rw e refl

  pub require-done :
      {A : Type 0} (e : Error) (o : Option A) (a : A) (w : World host)
      → o ≡ some a
      → require host e o w ≡ done a w
  require-done e o a w h = ap (λ x. require host e x w) h

  pub raise_if-done :
      (b : Bool) (e : Error) (w : World host) → b ≡ false → raise_if host b e w ≡ done tt w
  raise_if-done b e w h = ap (λ x. raise_if host x e w) h

  check_previous-done :
      (o : Option StageState) (w : World host)
      → prev_ok o ≡ true
      → check_previous host o w ≡ done tt w
  check_previous-done none w h = refl
  check_previous-done (some p) w h = rw h refl

  check_start-done :
      (s : PipelineState) (stage_id : String) (r : IsStartable s stage_id) (w : World host)
      → check_start host s stage_id r.stage r.index w ≡ done tt w
  unfolding check_start
  check_start-done s stage_id r w =
      rw (get_elem?-quiet s.stages r.index r.stage r.found r.idle, r.unfinished, r.idle)
        (check_previous-done (previous r.index s.stages) w r.ready)

  entered-MustDone :
      (o : Option String) (w : World host)
      → MustDone (entered host o w) (λ _ v. IsSameRest host w v)
  unfolding clock
  entered-MustDone none w = (refl, refl, refl, refl, refl)
  entered-MustDone (some t) w = go (t == "")
    where
      go : (b : Bool) → MustDone ((if b then clock host else pure t) w) (λ _ v. IsSameRest host w v)
      go true = (refl, refl, refl, refl, refl)
      go false = (refl, refl, refl, refl, refl)

  started-view :
      (s : PipelineState) (stage_id time : String)
      → view (started host s stage_id time)
        ≡ record { current = some stage_id; stages = set_status stage_id active (view s).stages }
  unfolding started activate
  started-view s stage_id time = λ j. record {
    current = some stage_id;
    stages = entries-update_stage stage_id (activate time) active s.stages (λ x. refl) j;
  }

  pub IsCalm-rest : (w v : World host) → IsCalm host w → IsSameRest host w v → IsCalm host v
  IsCalm-rest w v c same = record {
    config = c.config;
    configured = same.1 ∙ c.configured;
    quiet = ap (any (λ h. h.blocking)) same.2 ∙ c.quiet;
    gates = c.gates;
    gated = same.3 ∙ c.gated;
    passing = c.passing;
    lessons = subst (λ m. HasLessons m.lessons) (sym same.4) c.lessons;
  }

  -- the end of a transition: the save and the event
  pub save_and_log :
      (writable : IsWritable host) (w v : World host) (event_type : String) (next : PipelineState)
      (stage_id : String) (after : View)
      → IsCalm host w
      → IsSameRest host w v
      → view next ≡ after
      → MustDone
          ((save host next >>= λ saved. log_transition host event_type saved stage_id none) v)
          (λ t x. IsSaved host w x t × (view t ≡ after))
  save_and_log writable w v event_type next stage_id after c same e =
      MustDone-bind _ _ (save host next) _ v
        (save-MustDone host writable v (IsCalm-rest w v c same) next)
        (λ saved x (k, stamped).
          mono (log_transition host event_type saved stage_id none x)
            (λ t y (l, same_view). (
              record {
                file = l.file;
                config = l.config ∙ k.config ∙ same.1;
                hooks = l.hooks ∙ k.hooks ∙ same.2;
                gate_file = l.gate_file ∙ k.gate_file ∙ same.3;
                memory = l.memory ∙ k.memory ∙ same.4;
              },
              same_view ∙ ap view stamped ∙ e,
            ))
            (log_transition-MustDone host writable x
              (IsCalm-IsSaved host v x saved (IsCalm-rest w v c same) k) event_type saved stage_id
              none))
    where
      mono :
          {P Q : PipelineState → World host → Type 0} (o : Outcome (World host) PipelineState)
          → ((t : PipelineState) (y : World host) → P t y → Q t y)
          → MustDone o P
          → MustDone o Q
      mono (done t y) f h = f t y h
      mono (raised x y) f h = absurd h

  -- In a project whose state files can be written, with a valid configuration and gate file,
  -- readable lessons, no blocking hook and no blocking gate that fails, a stage that may start does:
  -- `start_stage` returns, the file holds the state that it returns, and in it the stage is active
  -- and current and every other status is as it was.
  pub start_stage-MustDone :
      (writable : IsWritable host) (w : World host) (s : PipelineState) (stage_id : String)
      → IsCalm host w
      → w.state_file ≡ some s
      → IsStartable s stage_id
      → MustDone (start_stage host stage_id w) (λ t v.
        IsSaved host w v t
        × (view t ≡ record {
          current = some stage_id;
          stages = set_status stage_id active (view s).stages;
        }))
  unfolding start_stage
  start_stage-MustDone writable w s stage_id c e r =
      MustDone-then _ (load host) _ w w s (load-done w s e) (
        MustDone-then _ (require host _ (index_of stage_id s.stages)) _ w w r.index
          (require-done _ _ r.index w r.indexed)
          (MustDone-then _ (require host _ (get_elem? s.stages r.index)) _ w w r.stage
            (require-done _ _ r.stage w r.found)
            (MustDone-then _ (check_start host s stage_id r.stage r.index) _ w w tt
              (check_start-done s stage_id r w)
              (MustDone-bind (λ _ v. IsSameRest host w v) _ (entered host r.stage.entered_at) _ w
                (entered-MustDone r.stage.entered_at w)
                (λ time v same.
                  save_and_log writable w v "StageStarted" (started host s stage_id time) stage_id _
                    c same (started-view s stage_id time))))))
