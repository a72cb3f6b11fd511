-- ===== src/Artifacts/Rework.antt =====
-- project/rework_planner.py, project/backtrack_registry.py, schemas/backtrack.py: what a change to a
-- stage's artifacts affects.
pub mod Marking
pub mod Search
pub mod Affected
use forge_os.Base.{
  ℕ, zero, suc, ◌+◌, String, Bool, true, false, not, ◌&&◌, Option, none, some, List, [], ◌∷◌, ◌++◌,
  map, filter, contains, length, if◌then◌else◌, ◌==◌, opt_eq,
}
use forge_os.Base.Sort.{sorted}
use forge_os.Base.Text.{str_leb}
use forge_os.Artifacts.{Artifact, ArtifactDocument, find}

-- the texts of the list that are not in the set yet, each once: what `add` changes
unfoldable pub new_ones : List String → List String → List String
new_ones [] seen = []
new_ones (x ∷ xs) seen =
    let later = new_ones xs (seen ++ x ∷ []) in
    if contains seen x then new_ones xs seen else x ∷ later

-- `while queue`. `affected` is the set, in the order of the additions.
unfoldable pub traverse : ℕ → ArtifactDocument → List String → List String → Option (List String)
unfolding new_ones
traverse zero document affected queue = none
traverse (suc n) document affected [] = some affected
traverse (suc n) document affected (current ∷ queue) = elim (find document current) [
  | none ↦ traverse n document affected queue
  | some artifact ↦
      traverse n document (affected ++ new_ones artifact.dependents affected)
        (queue ++ new_ones artifact.dependents affected)
]

unfoldable pub seeds : ArtifactDocument → String → List String
seeds document target = map (λ a. a.path) (filter (λ a. opt_eq a.stage_id target) document)

-- the stages of the affected artifacts, other than the target
unfoldable pub stage_ids : ArtifactDocument → List String → String → List String
stage_ids [] affected target = []
stage_ids (a ∷ rest) affected target =
    let later = stage_ids rest affected target in
    elim a.stage_id [
      | none ↦ later
      | some stage ↦
          if contains affected a.path && not (stage == target) then stage ∷ later else later
    ]

abbrev pub all_dependents : ArtifactDocument → List String
all_dependents [] = []
all_dependents (a ∷ rest) = a.dependents ++ all_dependents rest

-- one round for each seed, and at most one for each dependent
unfoldable pub rounds : ArtifactDocument → String → ℕ
unfolding seeds
rounds document target = suc (length (seeds document target) + length (all_dependents document))

-- `_get_affected_artifacts`: the paths and the stages, each sorted and without repetition
unfoldable pub get_affected_artifacts :
    ArtifactDocument → String → Option (List String × List String)
unfolding traverse seeds new_ones stage_ids rounds
get_affected_artifacts document target =
    elim (traverse (rounds document target) document (new_ones (seeds document target) [])
      (seeds document target)) [
        | none ↦ none
        | some affected ↦ some (
          sorted str_leb affected,
          sorted str_leb (new_ones (stage_ids document affected target) []),
        )
      ]
