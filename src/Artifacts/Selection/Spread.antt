-- ===== src/Artifacts/Selection/Spread.antt =====
-- context/pruner.py, `_spread_activation_priorities`: how far each artifact is from those of a stage.
pub mod Distance
pub mod Visits
pub mod Shortest
use forge_os.Base.{
  ℕ, zero, suc, ◌+◌, String, Bool, true, false, Option, none, some, List, [], ◌∷◌, ◌++◌, map,
  filter, length, if◌then◌else◌, opt_eq, leb,
}
use forge_os.Base.Dict.{Dict, lookup, insert}
use forge_os.Base.Sort.{sorted}
use forge_os.Base.Text.{str_leb}
use forge_os.Artifacts.{Artifact}
use forge_os.Artifacts.Selection.{by_path}

-- `existing is not None and existing <= priority`
abbrev pub is_settled : Option ℕ → ℕ → Bool
is_settled none priority = false
is_settled (some existing) priority = leb existing priority

-- `for path in paths: visit(path, priority)`
unfoldable pub visit_all :
    (String → Dict ℕ → Option (Dict ℕ)) → List String → Dict ℕ → Option (Dict ℕ)
visit_all visit [] priorities = some priorities
visit_all visit (path ∷ rest) priorities = elim (visit path priorities) [
  | none ↦ none
  | some next ↦ visit_all visit rest next
]

-- the end of `visit`: the dependencies of an artifact that is registered
unfoldable pub visit_dependencies :
    (String → Dict ℕ → Option (Dict ℕ)) → Option Artifact → Dict ℕ → Option (Dict ℕ)
unfolding visit_all
visit_dependencies visit none priorities = some priorities
visit_dependencies visit (some artifact) priorities =
    visit_all visit (sorted str_leb artifact.dependencies) priorities

-- `visit`, on fuel for the depth of the recursion
unfoldable pub visit : ℕ → Dict Artifact → String → ℕ → Dict ℕ → Option (Dict ℕ)
unfolding visit_dependencies
visit zero artifacts path priority priorities = none
visit (suc fuel) artifacts path priority priorities =
    if is_settled (lookup path priorities) priority
    then some priorities
    else visit_dependencies (λ dependency. visit fuel artifacts dependency (suc priority))
        (lookup path artifacts) (insert path priority priorities)

or_all : List String → List String → List String
or_all all [] = all
or_all all (path ∷ paths) = path ∷ paths

-- the artifacts of the stage, or all of them if it has none
unfoldable pub stage_paths : String → List Artifact → List String
unfolding or_all
stage_paths stage_id artifacts =
    or_all (sorted str_leb (map (λ a. a.path) artifacts))
      (sorted str_leb (map (λ a. a.path) (filter (λ a. opt_eq a.stage_id stage_id) artifacts)))

abbrev pub all_dependencies : Dict Artifact → List String
all_dependencies [] = []
all_dependencies ((_, a) ∷ rest) = a.dependencies ++ all_dependencies rest

-- more than there are paths
unfoldable pub depth : List String → Dict Artifact → ℕ
depth sources artifacts = suc (length (sources ++ all_dependencies artifacts))

unfoldable pub spread_activation_priorities : String → List Artifact → Option (Dict ℕ)
unfolding visit visit_all stage_paths depth
spread_activation_priorities stage_id artifacts =
    let found : Dict Artifact = by_path artifacts [] in
    let sources : List String = stage_paths stage_id artifacts in
    visit_all (λ path. visit (depth sources found) found path 0) sources []
