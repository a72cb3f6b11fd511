-- ===== src/Pipeline/Manager/Spec.antt =====
-- The specification of the pipeline: the stages by name and status, and the steps between them.
use forge_os.Base.{
  ℕ, zero, suc, String, Bool, true, false, Option, none, some, List, [], ◌∷◌, ◌≡◌, refl, map, any,
  arith, if◌then◌else◌, ◌==◌, get_elem?,
}
use forge_os.Pipeline.State.{
  PipelineState, StageState, StageStatus, active, blocked, complete, is_active, is_complete,
  find_stage, index_of, previous, update_stage, force,
}

abbrev pub Stages : Type 0
Stages = List (String × StageStatus)

pub record View : Type 0 where
  pub current : Option String
  pub stages : Stages

abbrev pub entry : StageState → String × StageStatus
entry s = (s.stage_id, s.status)

abbrev pub view : PipelineState → View
view s = record { current = s.current_stage_id; stages = map entry s.stages }

unfoldable pub set_status : String → StageStatus → Stages → Stages
set_status stage_id status [] = []
set_status stage_id status ((j, st) ∷ ss) =
    let later = set_status stage_id status ss in
    if j == stage_id then (j, status) ∷ ss else (j, st) ∷ later

unfoldable pub status_of : String → Stages → Option StageStatus
status_of stage_id [] = none
status_of stage_id ((j, st) ∷ ss) = if j == stage_id then some st else status_of stage_id ss

abbrev pub has_active : Stages → Bool
has_active = any (λ s. is_active s.1)

-- the stage is the first one, or the stage before it is complete; `before` speaks of the latter
unfoldable pub is_ready : String → Bool → Stages → Bool
is_ready stage_id before [] = false
is_ready stage_id before ((j, st) ∷ ss) =
    if j == stage_id then before else is_ready stage_id (is_complete st) ss

unfoldable pub force_status : String → Stages → Stages
force_status target =
    map λ s. (s.0, if s.0 == target then active else if is_active s.1 then blocked else s.1)

-- What may happen to a pipeline.
pub data Step (c d : View) : Type 0 where
  begins :
      (stage_id : String) (st : StageStatus)
      → status_of stage_id c.stages ≡ some st
      → is_complete st ≡ false
      → has_active c.stages ≡ false
      → is_ready stage_id true c.stages ≡ true
      → d ≡ record { current = some stage_id; stages = set_status stage_id active c.stages }
      → Step c d
  finishes :
      (stage_id : String)
      → status_of stage_id c.stages ≡ some active
      → d ≡ record { current = none; stages = set_status stage_id complete c.stages }
      → Step c d
  blocks :
      (stage_id : String)
      → status_of stage_id c.stages ≡ some active
      → d ≡ record { current = c.current; stages = set_status stage_id blocked c.stages }
      → Step c d

-- What an override does.
pub data Override (c d : View) : Type 0 where
  overrides :
      (stage_id : String) (st : StageStatus)
      → status_of stage_id c.stages ≡ some st
      → d ≡ record { current = some stage_id; stages = force_status stage_id c.stages }
      → Override c d

pub data Steps (c : View) : View → Type 0 where
  here : Steps c c
  next : {d e : View} → Steps c d → Step d e → Steps c e

-- An assignment that sets the status of a stage is `set_status` on the entries.
pub entries-update_stage :
    (stage_id : String) (f : StageState → StageState) (st : StageStatus) (ss : List StageState)
    → ((s : StageState) → entry (f s) ≡ (s.stage_id, st))
    → map entry (update_stage stage_id f ss) ≡ set_status stage_id st (map entry ss)
unfolding update_stage set_status
entries-update_stage stage_id f st [] h = refl
entries-update_stage stage_id f st (s ∷ ss) h =
    ground (arith, entries-update_stage stage_id f st ss h, h s)

force-entry :
    (stage_id time : String) (s : StageState)
    → entry (force stage_id time s) ≡ (
      s.stage_id,
      if s.stage_id == stage_id then active else if is_active s.status then blocked else s.status,
    )
unfolding force
force-entry stage_id time s = ground arith

pub entries-force :
    (stage_id time : String) (ss : List StageState)
    → map entry (map (force stage_id time) ss) ≡ force_status stage_id (map entry ss)
unfolding force_status
entries-force stage_id time [] = refl
entries-force stage_id time (s ∷ ss) =
    λ i. force-entry stage_id time s i ∷ entries-force stage_id time ss i

pub has_active-entries :
    (ss : List StageState) → has_active (map entry ss) ≡ any (λ s. is_active s.status) ss
has_active-entries [] = refl
has_active-entries (s ∷ ss) = rw (has_active-entries ss)

pub status_of-find :
    (stage_id : String) (ss : List StageState) (s : StageState)
    → find_stage stage_id ss ≡ some s
    → status_of stage_id (map entry ss) ≡ some s.status
unfolding status_of
status_of-find stage_id [] s h = absurd (ground arith)
status_of-find stage_id (x ∷ ss) s h = ground (arith, status_of-find stage_id ss s)

pub status_of-index :
    (stage_id : String) (ss : List StageState) (i : ℕ) (s : StageState)
    → index_of stage_id ss ≡ some i
    → get_elem? ss i ≡ some s
    → status_of stage_id (map entry ss) ≡ some s.status
unfolding status_of index_of
status_of-index stage_id [] i s h k = absurd (ground arith)
status_of-index stage_id (x ∷ ss) zero s h k = ground arith
status_of-index stage_id (x ∷ ss) (suc i) s h k = ground (arith, status_of-index stage_id ss i s)

-- the previous stage, if there is one, is complete
abbrev pub prev_ok : Option StageState → Bool
prev_ok none = true
prev_ok (some p) = is_complete p.status

abbrev before_index : Bool → ℕ → List StageState → Bool
before_index before zero ss = before
before_index before (suc i) ss = prev_ok (get_elem? ss i)

is_ready-before :
    (stage_id : String) (before : Bool) (ss : List StageState) (i : ℕ)
    → index_of stage_id ss ≡ some i
    → is_ready stage_id before (map entry ss) ≡ before_index before i ss
unfolding is_ready index_of
is_ready-before stage_id b [] i h = absurd (ground arith)
is_ready-before stage_id b (x ∷ ss) zero h = ground arith
is_ready-before stage_id b (x ∷ ss) (suc zero) h =
    ground (arith, is_ready-before stage_id (is_complete x.status) ss zero)
is_ready-before stage_id b (x ∷ ss) (suc (suc i)) h =
    ground (arith, is_ready-before stage_id (is_complete x.status) ss (suc i))

pub is_ready-previous :
    (stage_id : String) (ss : List StageState) (i : ℕ)
    → index_of stage_id ss ≡ some i
    → is_ready stage_id true (map entry ss) ≡ prev_ok (previous i ss)
unfolding previous
is_ready-previous stage_id ss zero h = is_ready-before stage_id true ss zero h
is_ready-previous stage_id ss (suc i) h = is_ready-before stage_id true ss (suc i) h
