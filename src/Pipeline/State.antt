-- ===== src/Pipeline/State.antt =====
-- schemas/state.py: the pipeline's state, and what the manager asks of it and changes in it.
use forge_os.Base.{
  ℕ, zero, suc, String, Bool, true, false, Option, none, some, List, [], ◌∷◌, ◌<>◌, find?,
  if◌then◌else◌, ◌==◌, get_elem?,
}
use forge_os.Base.Dict.{Dict}
use forge_os.Events.Model.{Value}
use forge_os.Gates.Model.{GateResult}

pub data StageStatus : Type 0 where
  not_started active blocked review_needed complete skipped : StageStatus

abbrev pub is_active : StageStatus → Bool
is_active active = true
is_active _ = false

abbrev pub is_complete : StageStatus → Bool
is_complete complete = true
is_complete _ = false

abbrev pub is_not_started : StageStatus → Bool
is_not_started not_started = true
is_not_started _ = false

pub record StageState : Type 0 where
  pub stage_id : String
  pub status : StageStatus
  pub entered_at : Option String
  pub completed_at : Option String
  pub blocked_reason : Option String
  pub artifacts : List String

-- What `_evaluate_gates_for_stage` stores for a stage.
pub record GateRecord : Type 0 where
  pub blocked : Bool
  pub results : List GateResult

pub record PipelineState : Type 0 where
  pub schema_version : String
  pub project_id : String
  pub profile : String
  pub current_stage_id : Option String
  pub stages : List StageState
  pub gates : Dict GateRecord
  pub last_event_id : Option String
  pub created_at : String
  pub updated_at : String
  pub metadata : Dict (Value ℕ)

-- the values of a dumped state
pub data Field : Type 0 where
  text : String → Field
  opt_text : Option String → Field
  stage_list : List StageState → Field
  gate_map : Dict GateRecord → Field
  value_map : Dict (Value ℕ) → Field

-- `state.model_dump()`
unfoldable pub model_dump : PipelineState → Dict Field
model_dump s =
    ("schema_version", text s.schema_version)
    ∷ ("project_id", text s.project_id)
    ∷ ("profile", text s.profile)
    ∷ ("current_stage_id", opt_text s.current_stage_id)
    ∷ ("stages", stage_list s.stages)
    ∷ ("gates", gate_map s.gates)
    ∷ ("last_event_id", opt_text s.last_event_id)
    ∷ ("created_at", text s.created_at)
    ∷ ("updated_at", text s.updated_at)
    ∷ ("metadata", value_map s.metadata)
    ∷ []

-- `_stage`, without its error
abbrev pub find_stage : String → List StageState → Option StageState
find_stage stage_id = find? (λ s. s.stage_id == stage_id)

-- `_stage_index`, without its error
unfoldable pub index_of : String → List StageState → Option ℕ
index_of stage_id [] = none
index_of stage_id (s ∷ ss) =
    let later = index_of stage_id ss in
    if s.stage_id == stage_id then some 0 else elim later [ none ↦ none | some i ↦ some (suc i) ]

-- `_first_not_started_stage`
abbrev pub first_not_started : List StageState → Option StageState
first_not_started = find? (λ s. is_not_started s.status)

-- `index > 0` and the stage before `index`
unfoldable pub previous : ℕ → List StageState → Option StageState
previous zero ss = none
previous (suc i) ss = get_elem? ss i

-- an assignment to the fields of the first stage with the identifier
unfoldable pub update_stage : String → (StageState → StageState) → List StageState → List StageState
update_stage stage_id f [] = []
update_stage stage_id f (s ∷ ss) =
    let later = update_stage stage_id f ss in if s.stage_id == stage_id then f s ∷ ss else s ∷ later

-- `t or now` for an optional time `t`
abbrev pub time_or : Option String → String → String
time_or none now = now
time_or (some t) now = if t == "" then now else t

unfoldable pub activate : String → StageState → StageState
activate entered s = record s { status = active; entered_at = some entered; blocked_reason = none }

unfoldable pub finish : String → StageState → StageState
finish now s = record s { status = complete; completed_at = some now; blocked_reason = none }

unfoldable pub block : String → StageState → StageState
block reason s = record s { status = blocked; blocked_reason = some reason }

-- the loop of `override_stage`
unfoldable pub force : String → String → StageState → StageState
unfolding activate
force target timestamp s =
    if s.stage_id == target
    then activate (time_or s.entered_at timestamp) s
    else if is_active s.status
    then record s {
      status = blocked;
      blocked_reason = some ("Superseded by override to `" <> (target <> "`."));
    }
    else s
