-- ===== src/Artifacts/Registry.antt =====
-- context/registry.py: the registration of artifacts, and the edges between them. The files that are
-- registered can be read.
pub mod Refresh
pub mod Dual
pub mod Adding
pub mod Edges
pub mod Paths
pub mod Safe
pub mod Kept
use Prim.Native.Char.{code}
use Prim.Native.Nat.{◌/◌}
use forge_os.Base.{
  ℕ, zero, suc, ◌+◌, String, Bool, true, false, not, ◌&&◌, ◌||◌, Option, none, some, List, [], ◌∷◌,
  ◌++◌, ◌<>◌, map, filter, find?, contains, length, max, nat_beq, if◌then◌else◌, ◌==◌, opt_eq,
  is_none,
}
use forge_os.Base.Dict.{Dict, lookup, insert, update}
use forge_os.Base.Outcome.{
  Action, Outcome, done, raised, raise, pure, artifact_error, validation_error, ◌>>=◌, ◌>>◌,
}
use forge_os.Base.Sort.{sorted}
use forge_os.Base.Text.{str_leb, codes}
use forge_os.Events.Model.{Value, text}
use forge_os.Host.{Host}
unfoldable pub use forge_os.Artifacts.Names.{with_slashes, is_refused, normalize_edges}
use forge_os.Artifacts.{
  Artifact, ArtifactDocument, ArtifactStatus, fresh, stale, missing, status_eq, ArtifactFiles,
  Registry, find, load, save,
}

-- `_snapshot`
pub record Snapshot : Type 0 where
  pub status : ArtifactStatus
  pub content_hash : Option String
  pub modified_at : Option String
  pub token_estimate : ℕ

abbrev missing_snapshot : Snapshot
missing_snapshot = record {
  status = missing;
  content_hash = none;
  modified_at = none;
  token_estimate = 0;
}

-- the last artifact with the path, which is the one in `by_path`, changes
unfoldable pub on_last : String → (Artifact → Artifact) → ArtifactDocument → ArtifactDocument
on_last path f [] = []
on_last path f (a ∷ rest) =
    let later = on_last path f rest in
    if contains (map (λ b. b.path) rest) path
    then a ∷ later
    else if a.path == path
    then f a ∷ rest
    else a ∷ rest

abbrev pub append_dependent : String → Artifact → Artifact
append_dependent path a =
    if contains a.dependents path then a else record a { dependents = a.dependents ++ path ∷ [] }

unfoldable pub add_edges : String → List String → ArtifactDocument → ArtifactDocument
unfolding on_last
add_edges path [] document = document
add_edges path (d ∷ ds) document = add_edges path ds (on_last d (append_dependent path) document)

unfoldable pub add_all_edges : List Artifact → ArtifactDocument → ArtifactDocument
unfolding add_edges
add_all_edges [] document = document
add_all_edges (a ∷ rest) document = add_all_edges rest (add_edges a.path a.dependencies document)

abbrev pub clear_dependents : Artifact → Artifact
clear_dependents a = record a { dependents = [] }

abbrev pub sort_dependents : Artifact → Artifact
sort_dependents a = record a { dependents = sorted str_leb a.dependents }

-- `_rebuild_dependents`
unfoldable pub rebuild_dependents : ArtifactDocument → ArtifactDocument
unfolding add_all_edges
rebuild_dependents document =
    map sort_dependents (add_all_edges document (map clear_dependents document))

abbrev pub non_empty : Option String → Option String → Option String
non_empty none default = default
non_empty (some s) default = if s == "" then default else some s

abbrev pub given_or : List String → List String → List String
given_or [] default = default
given_or (d ∷ ds) default = d ∷ ds

module _ (host : Host) where
  unfoldable pub estimate_tokens : String → ℕ
  estimate_tokens content =
      let stripped = host.strip content in
      if stripped == "" then 0 else max 1 ((length (codes stripped) + 3) / 4)

  unfoldable pub snapshot : String → Snapshot
  unfolding estimate_tokens
  snapshot path =
      if not (host.exists path) || not (host.is_file path) then missing_snapshot else record {
        status = fresh;
        content_hash = some (host.content_hash path);
        modified_at = some (host.modified_at path);
        token_estimate = estimate_tokens (host.decoded path);
      }

  -- `_normalize_path`
  unfoldable pub normalize_path : String → Registry String
  unfolding with_slashes is_refused
  normalize_path path =
      let normalized = with_slashes (host.strip path) in
      if is_refused normalized
      then raise (artifact_error "Artifact path must be non-empty and project-relative.")
      else pure normalized

  -- a new artifact, which pydantic validates
  new_artifact :
      ℕ
      → String
      → Snapshot
      → Option String
      → List String
      → String
      → Dict (Value ℕ)
      → Registry Artifact
  unfolding normalize_edges with_slashes is_refused
  new_artifact tick path found stage_id dependencies kind metadata =
      let checked = with_slashes (host.strip path) in
      if is_refused checked
      then raise validation_error
      else pure (record {
        id = "artifact-" <> host.uuid tick;
        path = checked;
        stage_id = stage_id;
        kind = kind;
        status = found.status;
        dependencies = normalize_edges host dependencies [];
        dependents = [];
        content_hash = found.content_hash;
        modified_at = found.modified_at;
        token_estimate = found.token_estimate;
        registered_at = host.utc_now tick;
        updated_at = host.utc_now tick;
        metadata = metadata;
      })

  -- a registration of an artifact that is there; what it gives is not validated again
  abbrev pub registered_again :
      ℕ → Snapshot → Option String → List String → String → Dict (Value ℕ) → Artifact → Artifact
  registered_again tick found stage_id dependencies kind metadata a = record a {
    stage_id = non_empty stage_id a.stage_id;
    kind = kind;
    dependencies = given_or dependencies a.dependencies;
    status = found.status;
    content_hash = found.content_hash;
    modified_at = found.modified_at;
    token_estimate = found.token_estimate;
    updated_at = host.utc_now tick;
    metadata = update a.metadata metadata;
  }

  -- the first artifact with the path changes
  unfoldable pub on_first : String → (Artifact → Artifact) → ArtifactDocument → ArtifactDocument
  on_first path f [] = []
  on_first path f (a ∷ rest) =
      let later = on_first path f rest in if a.path == path then f a ∷ rest else a ∷ later

  -- the document with the artifact, before its dependents are rebuilt
  unfoldable pub put :
      ℕ
      → String
      → Option String
      → List String
      → String
      → Dict (Value ℕ)
      → ArtifactDocument
      → Option Artifact
      → Registry ArtifactDocument
  unfolding snapshot new_artifact on_first
  put tick path stage_id dependencies kind metadata document none = do
    a ← new_artifact tick path (snapshot path) stage_id dependencies kind metadata
    pure (document ++ a ∷ [])
  put tick path stage_id dependencies kind metadata document (some old) = pure (
      on_first path (registered_again tick (snapshot path) stage_id dependencies kind metadata)
        document)

  -- `register`, at a reading of the clock
  unfoldable pub register :
      ℕ → String → Option String → List String → String → Dict (Value ℕ) → Registry (Unit {0})
  unfolding normalize_path put rebuild_dependents
  register tick path stage_id dependencies kind metadata = do
    document ← load host
    normalized ← normalize_path path
    next ←
        put tick normalized stage_id dependencies kind metadata document (find document normalized)
    save (rebuild_dependents next)

  -- `_default_dependencies`, where `pipeline/stages.yaml` is there
  unfoldable pub previous_outputs : String → ArtifactDocument → List String
  previous_outputs stage_id document = sorted str_leb (
      map (λ a. a.path)
        (filter (λ a. not (is_none a.stage_id) && not (opt_eq a.stage_id stage_id)) document))

  unfoldable pub default_dependencies : String → Registry (List String)
  unfolding previous_outputs
  default_dependencies stage_id =
      if stage_id == "srs" || not (host.exists "pipeline/stages.yaml")
      then pure []
      else do document ← load host; pure (previous_outputs stage_id document)

  -- the loop of `register_stage_outputs`, over the sorted paths without repetition
  unfoldable pub register_stage_outputs : ℕ → String → List String → Registry (Unit {0})
  unfolding register default_dependencies
  register_stage_outputs tick stage_id [] = pure tt
  register_stage_outputs tick stage_id (path ∷ rest) = do
    dependencies ← default_dependencies stage_id
    register tick path (some stage_id) dependencies "file"
        (("registered_by", text "stage_agent") ∷ [])
    register_stage_outputs (tick + 1) stage_id rest
