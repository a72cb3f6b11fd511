-- ===== src/Pipeline/Manager/Running/Liveness.antt =====
-- A pipeline of which no stage has started is run to its end.
use forge_os.Base.{String, true, false, Option, none, some, List, ◌≡◌, map, All, contains}
use forge_os.Base.Outcome.{Outcome}
use forge_os.Host.{Host}
use forge_os.Pipeline.State.{PipelineState, not_started, complete, is_complete}
use forge_os.Pipeline.World.{World}
use forge_os.Pipeline.Manager.Spec.{View, view, Stages}
use forge_os.Pipeline.Manager.Safety.Calls.{Call, advance_call}

-- stages that have not started, and stages that are complete
abbrev pub fresh : List String → Stages
fresh = map (λ i. (i, not_started))

abbrev pub finished : List String → Stages
finished = map (λ i. (i, complete))

-- one `advance` for each stage
abbrev pub advances : List String → List Call
advances = map (λ _. advance_call)

abbrev pub view_of : Option PipelineState → Option View
view_of none = none
view_of (some s) = some (view s)

-- the stages of `past` are complete and none of them has one of the names
abbrev IsApart : List String → Stages → Type 0
IsApart ids = All (λ e. (is_complete e.1 ≡ true) × (contains ids e.0 ≡ false))

module _ (host : Host) where
  -- a state and the world that a call left, with `Q`
  record Left (Q : PipelineState → World host → Type 0) (w : World host) : Type 0 where
    state : PipelineState
    holds : Q state w
