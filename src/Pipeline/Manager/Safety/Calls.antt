-- ===== src/Pipeline/Manager/Safety/Calls.antt =====
-- The calls that change the pipeline, in sequence, and what they keep.
use forge_os.Base.{String, none, List, [], ◌∷◌, ◌≡◌, All}
use forge_os.Base.Outcome.{Outcome, done, raised, after}
use forge_os.Host.{Host}
use forge_os.Pipeline.State.{PipelineState}
use forge_os.Pipeline.World.{World, Managed}
use forge_os.Pipeline.Manager.{start_stage, complete_stage, advance, override_stage}
use forge_os.Pipeline.Manager.Spec.{View, Step, Override}
use forge_os.Pipeline.Manager.Keeping.{Holds, Ends}
use forge_os.Pipeline.Manager.Safety.Starting.{start_stage_rule}
use forge_os.Pipeline.Manager.Safety.Completing.{complete_stage_rule}
use forge_os.Pipeline.Manager.Safety.Advancing.{advance_rule, override_stage_rule}

-- The calls that change the pipeline.
pub data Call : Type 0 where
  start_call complete_call : String → Call
  advance_call : Call
  override_call : String → String → Call

-- A call that is no override.
abbrev pub IsForward : Call → Type 0
IsForward (override_call i reason) = ⊥
IsForward _ = Unit

module _ (host : Host) where
  unfoldable pub call : Call → Managed host PipelineState
  unfolding start_stage complete_stage advance override_stage
  call (start_call i) = start_stage host i
  call (complete_call i) = complete_stage host i
  call advance_call = advance host
  call (override_call i reason) = override_stage host i reason

  -- one call after the other, each a process of its own; an error ends only its own call
  unfoldable pub run_calls : List Call → World host → World host
  unfolding call
  run_calls [] w = w
  run_calls (c ∷ cs) w = run_calls cs (after (call c w))

  Ends-after :
      (C : View → Type 0) (o : Outcome (World host) PipelineState)
      → Ends host o (λ _. Unit) C C
      → Holds host C (after o)
  Ends-after C (done a v) h = h.1
  Ends-after C (raised e v) h = h

  Idle-Ends-after :
      (C : View → Type 0) (o : Outcome (World host) PipelineState)
      → Ends host o (λ _. Unit) (λ c. C c × (c.current ≡ none)) C
      → Holds host C (after o)
  Idle-Ends-after C (done a v) h = λ s e. (h.1 s e).0
  Idle-Ends-after C (raised e v) h = h

  pub call-keeps :
      (C : View → Type 0)
      → ((c d : View) → Step c d → C c → C d)
      → ((c d : View) → Override c d → C c → C d)
      → (c : Call) (w : World host) → Holds host C w
      → Holds host C (after (call c w))
  unfolding call
  call-keeps C step over (start_call i) w h =
      Ends-after C (start_stage host i w) ((start_stage_rule host C step i).run w h)
  call-keeps C step over (complete_call i) w h =
      Idle-Ends-after C (complete_stage host i w) ((complete_stage_rule host C step i).run w h)
  call-keeps C step over advance_call w h =
      Ends-after C (advance host w) ((advance_rule host C step).run w h)
  call-keeps C step over (override_call i reason) w h =
      Ends-after C (override_stage host i reason w)
        ((override_stage_rule host C over i reason).run w h)

  pub forward-keeps :
      (C : View → Type 0)
      → ((c d : View) → Step c d → C c → C d)
      → (c : Call) (w : World host) → IsForward c
      → Holds host C w
      → Holds host C (after (call c w))
  unfolding call
  forward-keeps C step (start_call i) w _ h =
      Ends-after C (start_stage host i w) ((start_stage_rule host C step i).run w h)
  forward-keeps C step (complete_call i) w _ h =
      Idle-Ends-after C (complete_stage host i w) ((complete_stage_rule host C step i).run w h)
  forward-keeps C step advance_call w _ h =
      Ends-after C (advance host w) ((advance_rule host C step).run w h)
  forward-keeps C step (override_call i reason) w f h = absurd f

  pub forward_runs :
      (C : View → Type 0)
      → ((c d : View) → Step c d → C c → C d)
      → (cs : List Call) (w : World host) → All IsForward cs
      → Holds host C w
      → Holds host C (run_calls cs w)
  unfolding run_calls
  forward_runs C step [] w f h = h
  forward_runs C step (c ∷ cs) w f h =
      forward_runs C step cs (after (call c w)) f.1 (forward-keeps C step c w f.0 h)
