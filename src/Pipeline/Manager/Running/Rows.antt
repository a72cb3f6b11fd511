-- ===== src/Pipeline/Manager/Running/Rows.antt =====
-- Where the stages of a pipeline stand that is part of the way: complete ones, one, and the others.
use forge_os.Base.{
  suc, String, true, false, some, List, [], ◌∷◌, ◌++◌, ◌≡◌, refl, ap, arith, map, any, ◌==◌,
  eq_refl, All, length, get_elem?,
}
use forge_os.Pipeline.State.{
  StageState, StageStatus, not_started, is_active, is_complete, is_not_started, find_stage,
  index_of, first_not_started, previous,
}
use forge_os.Pipeline.Manager.Spec.{Stages, entry, set_status, prev_ok}

-- the stages before the stage `x`: complete, with other names
abbrev pub IsPast : String → Stages → Type 0
IsPast x = All (λ e. (is_complete e.1 ≡ true) × ((e.0 == x) ≡ false))

abbrev pub IsFuture : Stages → Type 0
IsFuture = All (λ e. e.1 ≡ not_started)

-- the stages of a state whose entries are a row
pub record Row (ss : List StageState) (past : Stages) (e : String × StageStatus) (future : Stages)
    : Type 0 where
  pub before : List StageState
  pub stage : StageState
  pub later : List StageState
  pub split : ss ≡ before ++ stage ∷ later
  pub before_entries : map entry before ≡ past
  pub stage_entry : entry stage ≡ e
  pub later_entries : map entry later ≡ future

head_or : String × StageStatus → Stages → String × StageStatus
head_or e [] = e
head_or e (x ∷ xs) = x

tail_of : Stages → Stages
tail_of [] = []
tail_of (x ∷ xs) = xs

pub Row-split :
    (past : Stages) (e : String × StageStatus) (future : Stages) (ss : List StageState)
    → map entry ss ≡ past ++ e ∷ future
    → Row ss past e future
unfolding head_or tail_of
Row-split [] e future [] h = absurd (ground (arith, h))
Row-split [] e future (s ∷ ss) h = record {
  before = [];
  stage = s;
  later = ss;
  split = refl;
  before_entries = refl;
  stage_entry = ap (head_or e) h;
  later_entries = ap tail_of h;
}
Row-split (p ∷ past) e future [] h = absurd (ground (arith, h))
Row-split (p ∷ past) e future (s ∷ ss) h =
    let r : Row ss past e future = Row-split past e future ss (ap tail_of h) in
    record {
      before = s ∷ r.before;
      stage = r.stage;
      later = r.later;
      split = ap (◌∷◌ s) r.split;
      before_entries = λ i. head_or e (h i) ∷ r.before_entries i;
      stage_entry = r.stage_entry;
      later_entries = r.later_entries;
    }

module _ (stage : StageState) (later : List StageState) where
  pub index_of-row :
      (before : List StageState)
      → IsPast stage.stage_id (map entry before)
      → index_of stage.stage_id (before ++ stage ∷ later) ≡ some (length before)
  unfolding index_of
  index_of-row [] h = ground (arith, eq_refl stage.stage_id)
  index_of-row (b ∷ before) h = ground (arith, index_of-row before h.1, h.0)

  pub get_elem?-row :
      (before : List StageState) → get_elem? (before ++ stage ∷ later) (length before) ≡ some stage
  get_elem?-row [] = refl
  get_elem?-row (b ∷ before) = get_elem?-row before

  pub get_elem?-later :
      (before : List StageState)
      → get_elem? (before ++ stage ∷ later) (suc (length before)) ≡ get_elem? later 0
  get_elem?-later [] = refl
  get_elem?-later (b ∷ before) = get_elem?-later before

  pub find_stage-row :
      (before : List StageState)
      → IsPast stage.stage_id (map entry before)
      → find_stage stage.stage_id (before ++ stage ∷ later) ≡ some stage
  find_stage-row [] h = ground (arith, eq_refl stage.stage_id)
  find_stage-row (b ∷ before) h = ground (arith, find_stage-row before h.1, h.0)

  last_ok :
      (b : StageState) (before : List StageState) (x : String)
      → IsPast x (map entry (b ∷ before))
      → prev_ok (get_elem? (b ∷ before ++ stage ∷ later) (length before)) ≡ true
  last_ok b [] x h = h.0.0
  last_ok b (c ∷ before) x h = last_ok c before x h.1

  pub previous-row :
      (before : List StageState) (x : String)
      → IsPast x (map entry before)
      → prev_ok (previous (length before) (before ++ stage ∷ later)) ≡ true
  unfolding previous
  previous-row [] x h = refl
  previous-row (b ∷ before) x h = last_ok b before x h

  future_idle :
      (ss : List StageState) → IsFuture (map entry ss) → any (λ s. is_active s.status) ss ≡ false
  future_idle [] h = refl
  future_idle (s ∷ ss) h = ground (arith, future_idle ss h.1, ap is_active h.0)

  pub idle-row :
      (before : List StageState) (x : String)
      → IsPast x (map entry before)
      → stage.status ≡ not_started
      → IsFuture (map entry later)
      → any (λ s. is_active s.status) (before ++ stage ∷ later) ≡ false
  idle-row [] x h n f = future_idle (stage ∷ later) (n, f)
  idle-row (b ∷ before) x h n f = ground (arith, idle-row before x h.1 n f, ended b.status h.0.0)
    where
      ended : (st : StageStatus) → is_complete st ≡ true → is_active st ≡ false
      ended st e = ground (arith, e)

  pub first_not_started-row :
      (before : List StageState) (x : String)
      → IsPast x (map entry before)
      → is_not_started stage.status ≡ true
      → first_not_started (before ++ stage ∷ later) ≡ some stage
  first_not_started-row [] x h n = ground (arith, n)
  first_not_started-row (b ∷ before) x h n =
      ground (arith, first_not_started-row before x h.1 n, ended b.status h.0.0)
    where
      ended : (st : StageStatus) → is_complete st ≡ true → is_not_started st ≡ false
      ended st e = ground (arith, e)

pub set_status-row :
    (x : String) (st new : StageStatus) (past future : Stages)
    → IsPast x past
    → set_status x new (past ++ (x, st) ∷ future) ≡ past ++ (x, new) ∷ future
unfolding set_status
set_status-row x st new [] future h = ground (arith, eq_refl x)
set_status-row x st new ((y, z) ∷ past) future h =
    ground (arith, set_status-row x st new past future h.1, h.0)
