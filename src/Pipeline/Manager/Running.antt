-- ===== src/Pipeline/Manager/Running.antt =====
-- Rules for calls that return, in a project where no write fails and no hook blocks.
pub mod Writes
pub mod Starts
pub mod Completes
pub mod Finishes
pub mod Rows
pub mod Whole
pub mod Along
pub mod Recovery
pub mod Liveness
use mathlib.Core.Path.{subst}
use forge_os.Base.{
  ℕ, ◌+◌, String, Bool, true, false, not, ◌&&◌, ◌||◌, Option, none, some, List, [], ◌∷◌, ◌++◌, ◌<>◌,
  ◌≡◌, refl, ap, sym, ◌∙◌, arith, map, filter, any, ◌==◌, if◌then◌else◌, inl, inr, any-filter,
  Bool-cases, get_elem?, zero, suc,
}
use forge_os.Base.Sort.{sorted, any-sorted}
use forge_os.Base.Outcome.{Action, Outcome, done, raised, pure, ◌>>=◌, ◌>>◌}
use forge_os.Host.{Host}
use forge_os.Events.Model.{LifecycleEvent}
use forge_os.Events.Bus.{Bus, emit, dispatch, append_event, record_timings}
use forge_os.Events.Hooks.{RegisteredHook, hooks_for, stops, run, run_one, finished, HookRun}
use forge_os.Events.Hooks.Isolation.{run_isolates, run_quiet}
use forge_os.Events.Store.{append_state_event}
use forge_os.Gates.Model.{GateCriterion}
use forge_os.Gates.Coordinator.{applies}
use forge_os.Gates.Coordinator.Verdicts.{is_blocking}
use forge_os.Memory.Lessons.{LessonFile, missing, broken, document, is_acceptable}
use forge_os.Memory.Reflections.{Memory}
use forge_os.Pipeline.State.{PipelineState, model_dump}
use forge_os.Pipeline.World.{
  World, Managed, ForgeConfig, load, load_config, clock, write_state, write_markdown, on_bus,
  state_path, markdown_path,
}
use forge_os.Pipeline.Manager.Spec.{view}
use forge_os.Pipeline.Saving.{
  save, dual_write, emit_transition, log_transition, render_state_markdown,
}

-- the call returned, with `Q` of its result and of the world that it left
abbrev pub MustDone : {W A : Type 0} → Outcome W A → (A → W → Type 0) → Type 0
MustDone (done a w) Q = Q a w
MustDone (raised e w) Q = ⊥

module _ {W A B : Type 0} where
  pub MustDone-bind :
      (R : A → W → Type 0) (Q : B → W → Type 0) (m : Action W A) (f : A → Action W B) (w : W)
      → MustDone (m w) R
      → ((a : A) (v : W) → R a v → MustDone (f a v) Q)
      → MustDone ((m >>= f) w) Q
  MustDone-bind R Q m f w h k = go (m w) h
    where
      go :
          (o : Outcome W A)
          → MustDone o R
          → MustDone {W = W} {A = B} (elim o [ done a v ↦ f a v | raised e v ↦ raised e v ]) Q
      go (done a v) r = k a v r
      go (raised e v) r = absurd r

  pub MustDone-then :
      (Q : B → W → Type 0) (m : Action W A) (f : A → Action W B) (w v : W) (a : A)
      → m w ≡ done a v
      → MustDone (f a v) Q
      → MustDone ((m >>= f) w) Q
  MustDone-then Q m f w v a e h =
      subst
        (λ (o : Outcome W A).
          MustDone {W = W} {A = B} (elim o [ done b u ↦ f b u | raised x u ↦ raised x u ]) Q)
        (sym e) h

-- the lesson file is missing or valid
abbrev pub HasLessons : {Num : Type 0} → LessonFile Num → Type 0
HasLessons missing = Unit
HasLessons (broken message) = ⊥
HasLessons (document lessons) = Unit

module _ (host : Host) where
  -- every write of the two state files succeeds
  pub record IsWritable : Type 0 where
    pub state : host.writable state_path ≡ true
    pub markdown : host.writable markdown_path ≡ true

  -- the lesson of a completed stage passes the validation of lessons, and is written
  pub record IsReviewable : Type 0 where
    pub written : host.writable ".forge/lessons.yaml" ≡ true
    pub accepted :
        (stage_id : String)
        → is_acceptable host
            ("Review completed `"
              <> (stage_id <> "` stage for reusable lessons before future work."))
            (host.literal "0.4")
          ≡ true

  -- The configuration is valid, no hook is blocking, the gate file is valid and no blocking gate
  -- fails for any stage, and the lessons can be read.
  pub record IsCalm (w : World host) : Type 0 where
    pub config : ForgeConfig
    pub configured : w.config ≡ some config
    pub quiet : any (λ h. h.blocking) w.bus.hooks ≡ false
    pub gates : List (GateCriterion host.Num)
    pub gated : w.gate_file ≡ some gates
    pub passing :
        (stage_id : String) → any (λ g. applies host stage_id g && is_blocking host g) gates ≡ false
    pub lessons : HasLessons w.memory.lessons

  -- what a call on the state leaves: the state in its file, and the rest of the world calm as before
  pub record IsSaved (w v : World host) (t : PipelineState) : Type 0 where
    pub file : v.state_file ≡ some t
    pub config : v.config ≡ w.config
    pub hooks : v.bus.hooks ≡ w.bus.hooks
    pub gate_file : v.gate_file ≡ w.gate_file
    pub memory : v.memory ≡ w.memory

  pub IsCalm-IsSaved : (w v : World host) (t : PipelineState) → IsCalm w → IsSaved w v t → IsCalm v
  IsCalm-IsSaved w v t c s = record {
    config = c.config;
    configured = s.config ∙ c.configured;
    quiet = ap (any (λ h. h.blocking)) s.hooks ∙ c.quiet;
    gates = c.gates;
    gated = s.gate_file ∙ c.gated;
    passing = c.passing;
    lessons = subst (λ m. HasLessons m.lessons) (sym s.memory) c.lessons;
  }

  -- the rest of the world is as it was
  abbrev pub IsSameRest : World host → World host → Type 0
  IsSameRest w v =
      (v.state_file ≡ w.state_file)
      × (v.config ≡ w.config)
      × (v.bus.hooks ≡ w.bus.hooks)
      × (v.gate_file ≡ w.gate_file)
      × (v.memory ≡ w.memory)
