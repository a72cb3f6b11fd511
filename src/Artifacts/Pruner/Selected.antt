-- ===== src/Artifacts/Pruner/Selected.antt =====
-- What `select` returns: fresh artifacts within the budget, by their distance from the stage.
use forge_os.Base.{String, true, List, [], ℕ, ◌≡◌, Has, All}
use forge_os.Base.Dict.{Dict}
use forge_os.Host.{Host}
use forge_os.Artifacts.{Artifact, ArtifactDocument, fresh, status_eq}
use forge_os.Artifacts.Selection.{SelectedContextItem, ContextSelection, by_path}
use forge_os.Artifacts.Selection.Budget.{IsWithin}
use forge_os.Artifacts.Selection.Spread.{stage_paths}
use forge_os.Artifacts.Selection.Spread.Distance.{Walk}
use forge_os.Artifacts.Pruner.{Pruner, registered, selected}
use forge_os.Artifacts.Pruner.Covered.{IsListed}

-- The item is of a fresh artifact, and its priority the number of dependencies on a walk to it.
abbrev pub IsGiven : List Artifact → Dict Artifact → List String → SelectedContextItem → Type 0
IsGiven artifacts found sources item =
    (a : Artifact) × Has a artifacts
    × (status_eq a.status fresh ≡ true)
    × (item.path ≡ a.path)
    × (item.token_estimate ≡ a.token_estimate)
    × Walk found sources a.path item.priority

module _ (host : Host) where
  -- A selection counts its tokens, stays within the budget, leaves out only what is not fresh or
  -- does not fit, has fresh artifacts with their distances, and lists every artifact that can be reached as
  -- selected or as omitted.
  pub record IsSelection (stage_id : String) (budget : ℕ) (d : ArtifactDocument)
      (s : ContextSelection) : Type 0 where
    pub within : IsWithin budget s.picked
    pub given :
        All
          (IsGiven (registered d) (by_path (registered d) []) (stage_paths stage_id (registered d)))
          s.picked.selected
    pub listed :
        (a : Artifact) (n : ℕ)
        → Has a (registered d)
        → Walk (by_path (registered d) []) (stage_paths stage_id (registered d)) a.path n
        → IsListed a.path s.picked
