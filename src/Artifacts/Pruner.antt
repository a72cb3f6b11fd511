-- ===== src/Artifacts/Pruner.antt =====
-- context/pruner.py, `select` as a whole: the refresh, the spread of the priorities, the selection
-- and the line of the audit file.
pub mod Given
pub mod Covered
pub mod Selected
use forge_os.Base.{
  ℕ, ◌+◌, String, Bool, true, false, Option, none, some, List, [], ◌∷◌, ◌++◌, map, if◌then◌else◌,
  ltb,
}
use forge_os.Base.Dict.{Dict}
use forge_os.Base.Outcome.{Action, Outcome, done, raised, raise, pure, context_error, ◌>>=◌, ◌>>◌}
use forge_os.Host.{Host, Attempt, value, error}
use forge_os.Artifacts.{Artifact, ArtifactDocument, ArtifactFiles}
use forge_os.Artifacts.Registry.Refresh.{refresh}
use forge_os.Artifacts.Selection.{ContextSelection, by_path, select}
use forge_os.Artifacts.Selection.Spread.{spread_activation_priorities}

-- the registry's files and `.forge/context-selections.jsonl`
pub record ContextFiles : Type 0 where
  pub artifacts : ArtifactFiles
  pub audit : List ContextSelection

abbrev pub Pruner : Type 0 → Type 0
Pruner A = Action ContextFiles A

unfoldable pub on_registry : {A : Type 0} → Action ArtifactFiles A → Pruner A
on_registry m files = elim (m files.artifacts) [
  | done a v ↦ done a (record files { artifacts = v })
  | raised e v ↦ raised e (record files { artifacts = v })
]

-- `_append_audit`
unfoldable pub append_audit : ContextSelection → Pruner (Unit {0})
append_audit selection files = done tt (record files { audit = files.audit ++ selection ∷ [] })

-- `list(artifacts.values())`
unfoldable pub registered : ArtifactDocument → List Artifact
registered document = map (λ e. e.1) (by_path document [])

module _ (host : Host) where
  selected : String → ℕ → ℕ → ArtifactDocument → Option (Dict ℕ) → Pruner ContextSelection
  selected stage_id budget tick document none = raise (context_error "recursion")
  selected stage_id budget tick document (some priorities) =
      elim (select host stage_id budget document priorities tick) [
        | value selection ↦ pure selection
        | error message ↦ raise (context_error message)
      ]

  -- the rest of `select`, for the refreshed document
  unfoldable pub choose : ℕ → String → ℕ → ArtifactDocument → Pruner ContextSelection
  unfolding append_audit registered selected
  choose tick stage_id budget document = do
    selection ←
        selected stage_id budget tick document
          (spread_activation_priorities stage_id (registered document))
    append_audit selection
    pure selection

  unfoldable pub select_context : ℕ → String → ℕ → Pruner ContextSelection
  unfolding on_registry choose
  select_context tick stage_id budget =
      if ltb budget 1
      then raise (context_error "Context token budget must be positive.")
      else on_registry (refresh host tick) >>= choose tick stage_id budget
