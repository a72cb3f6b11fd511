-- ===== src/Artifacts/Selection.antt =====
-- context/pruner.py: which artifacts become the context of a stage, within a token budget.
pub mod Budget
pub mod Made
pub mod Spread
pub mod Cache
use forge_os.Base.{
  ℕ, zero, suc, ◌+◌, ◌≤◌, String, Bool, true, false, not, ◌&&◌, ◌||◌, Option, none, some, List, [],
  ◌∷◌, ◌++◌, map, filter, if◌then◌else◌, ◌==◌, opt_eq, ltb, leb,
}
use forge_os.Base.Dict.{Dict, lookup, insert}
use forge_os.Host.{Host, Attempt, value, error}
use forge_os.Base.Sort.{sorted}
use forge_os.Base.Text.{str_leb}
use forge_os.Artifacts.{
  Artifact, ArtifactDocument, ArtifactStatus, fresh, stale, missing, find, status_eq,
}

pub data Omission : Type 0 where
  artifact_status : ArtifactStatus → Omission
  token_budget_exceeded : Omission

pub record OmittedItem : Type 0 where
  pub path : String
  pub reason : Omission
  pub token_estimate : ℕ

pub data SelectionReason : Type 0 where
  stage_artifact dependency_traversal fallback_artifact : SelectionReason

pub record SelectedContextItem : Type 0 where
  pub artifact_id : String
  pub path : String
  pub priority : ℕ
  pub token_estimate : ℕ
  pub reason : SelectionReason
  pub content : String

-- the total, what is selected and what is omitted so far
pub record Picked : Type 0 where
  pub total_tokens : ℕ
  pub selected : List SelectedContextItem
  pub omitted : List OmittedItem

pub record ContextSelection : Type 0 where
  pub stage_id : String
  pub token_budget : ℕ
  pub picked : Picked
  pub created_at : String

unfoldable pub omit : Artifact → Omission → Picked → Picked
omit a reason picked = record picked {
  omitted =
      picked.omitted
      ++ record { path = a.path; reason = reason; token_estimate = a.token_estimate } ∷ [];
}

-- `priorities[path]`, for a path that is there
abbrev pub priority_of : Dict ℕ → Artifact → ℕ
priority_of priorities a = elim (lookup a.path priorities) [ none ↦ 0 | some n ↦ n ]

-- `_reason`
selection_reason : String → Artifact → ℕ → SelectionReason
selection_reason stage_id a priority =
    if opt_eq a.stage_id stage_id
    then stage_artifact
    else if ltb 0 priority
    then dependency_traversal
    else fallback_artifact

unfoldable pub select_item : String → ℕ → String → Artifact → Picked → Picked
unfolding selection_reason
select_item stage_id priority content a picked = record {
  total_tokens = picked.total_tokens + a.token_estimate;
  selected =
      picked.selected
      ++ record {
        artifact_id = a.id;
        path = a.path;
        priority = priority;
        token_estimate = a.token_estimate;
        reason = selection_reason stage_id a priority;
        content = content;
      }
        ∷ [];
  omitted = picked.omitted;
}

module _ (host : Host) (stage_id : String) (budget : ℕ) (priorities : Dict ℕ) where
  -- one turn of the loop; `read_text` stands for `_read_artifact`, whose cache Cache is about
  unfoldable pub pick : Artifact → Picked → Attempt Picked
  unfolding omit select_item
  pick a picked =
      if not (status_eq a.status fresh)
      then value (omit a (artifact_status a.status) picked)
      else if ltb budget (picked.total_tokens + a.token_estimate)
      then value (omit a token_budget_exceeded picked)
      else (elim (host.read_text a.path) [
        | value content ↦ value (select_item stage_id (priority_of priorities a) content a picked)
        | error message ↦ error message
      ])

  unfoldable pub pick_all : List Artifact → Picked → Attempt Picked
  unfolding pick
  pick_all [] picked = value picked
  pick_all (a ∷ rest) picked = elim (pick a picked) [
    | value next ↦ pick_all rest next
    | error message ↦ error message
  ]

-- by the pair of priority and path
unfoldable pub candidate_leb : Dict ℕ → Artifact → Artifact → Bool
candidate_leb priorities a b =
    let m = priority_of priorities a in
    let n = priority_of priorities b in ltb m n || (leb m n && str_leb a.path b.path)

abbrev pub is_some : Option ℕ → Bool
is_some none = false
is_some (some n) = true

-- `{artifact.path: artifact for artifact in document.artifacts}`
unfoldable pub by_path : ArtifactDocument → Dict Artifact → Dict Artifact
by_path [] found = found
by_path (a ∷ rest) found = by_path rest (insert a.path a found)

abbrev pub nothing_picked : Picked
nothing_picked = record { total_tokens = 0; selected = []; omitted = [] }

-- the rest of `select`, for a refreshed document and its priorities
unfoldable pub select : Host → String → ℕ → ArtifactDocument → Dict ℕ → ℕ → Attempt ContextSelection
unfolding pick_all candidate_leb
select host stage_id budget document priorities tick =
    let candidates =
      sorted (candidate_leb priorities)
        (filter (λ a. is_some (lookup a.path priorities)) (map (λ e. e.1) (by_path document []))) in
    if ltb budget 1
    then error "Context token budget must be positive."
    else (elim (pick_all host stage_id budget priorities candidates nothing_picked) [
      | value picked ↦ value (record {
        stage_id = stage_id;
        token_budget = budget;
        picked = picked;
        created_at = host.utc_now tick;
      })
      | error message ↦ error message
    ])
