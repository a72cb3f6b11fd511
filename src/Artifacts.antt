-- ===== src/Artifacts.antt =====
-- context/models.py and context/registry.py: the registered artifacts of the project, and the file
-- that holds them.
pub mod Names
pub mod Rework
pub mod Tickets
pub mod Selection
pub mod Registry
pub mod Pruner
use forge_os.Base.{
  ℕ, ◌+◌, String, Bool, true, false, not, Option, none, some, List, [], ◌∷◌, ◌++◌, map, filter,
  find?, contains, if◌then◌else◌, ◌==◌, opt_eq,
}
use forge_os.Base.Outcome.{Action, Outcome, done, raised, raise, pure, artifact_error, os_error}
use forge_os.Base.Dict.{Dict}
use forge_os.Events.Model.{Value}
use forge_os.Host.{Host}
use forge_os.Artifacts.Names.{with_slashes, is_refused, normalize_edges}
use forge_os.Base.Sort.{sorted}
use forge_os.Base.Text.{str_leb}

pub data ArtifactStatus : Type 0 where
  fresh stale missing : ArtifactStatus

pub record Artifact : Type 0 where
  pub id : String
  pub path : String
  pub stage_id : Option String
  pub kind : String
  pub status : ArtifactStatus
  pub dependencies : List String
  pub dependents : List String
  pub content_hash : Option String
  pub modified_at : Option String
  pub token_estimate : ℕ
  pub registered_at : String
  pub updated_at : String
  pub metadata : Dict (Value ℕ)

abbrev pub ArtifactDocument : Type 0
ArtifactDocument = List Artifact

pub record GraphNode : Type 0 where
  pub id : String
  pub path : String
  pub stage_id : Option String
  pub status : ArtifactStatus

-- from a dependency to its dependent
pub record GraphEdge : Type 0 where
  pub source : String
  pub target : String

pub record ArtifactGraph : Type 0 where
  pub nodes : List GraphNode
  pub edges : List GraphEdge

-- `.forge/artifacts.json`: not there, not readable as a document, or a document
pub data Stored : Type 0 where
  absent corrupt : Stored
  stored : ArtifactDocument → Stored

-- `artifacts.json` and `adg.json`, whether they can be written, and whether a write that raises has
-- already cut the text of its file. A graph that is cut is none.
pub record ArtifactFiles : Type 0 where
  pub content : Stored
  pub graph : Option ArtifactGraph
  pub writable : Bool
  pub graph_writable : Bool
  pub torn : Bool

abbrev pub Registry : Type 0 → Type 0
Registry A = Action ArtifactFiles A

-- `_find`, and `next(a for a in document.artifacts if a.path == path)`
unfoldable pub find : ArtifactDocument → String → Option Artifact
find document path = find? (λ a. a.path == path) document

module _ (host : Host) where
  -- `Artifact.model_validate` on what is stored: the path and the edges are normalised
  unfoldable pub validated_artifact : Artifact → Option Artifact
  unfolding with_slashes is_refused normalize_edges
  validated_artifact a =
      let path = with_slashes (host.strip a.path) in
      if is_refused path
      then none
      else some (record a {
        path = path;
        dependencies = normalize_edges host a.dependencies [];
        dependents = normalize_edges host a.dependents [];
      })

  unfoldable pub validated : ArtifactDocument → Option ArtifactDocument
  unfolding validated_artifact
  validated [] = some []
  validated (a ∷ rest) = elim (validated_artifact a) [
    | none ↦ none
    | some b ↦ elim (validated rest) [ none ↦ none | some bs ↦ some (b ∷ bs) ]
  ]

  unfoldable pub load_validated : Option ArtifactDocument → Registry ArtifactDocument
  load_validated none = raise (artifact_error "artifacts.json")
  load_validated (some document) = pure document

  unfoldable pub load_stored : Stored → Registry ArtifactDocument
  unfolding load_validated validated
  load_stored absent = pure []
  load_stored corrupt = raise (artifact_error "artifacts.json")
  load_stored (stored document) = load_validated (validated document)

  unfoldable pub load : Registry ArtifactDocument
  unfolding load_stored
  load files = load_stored files.content files

abbrev pub path_leb : Artifact → Artifact → Bool
path_leb a b = str_leb a.path b.path

edges_to : ArtifactDocument → String → List String → List GraphEdge
edges_to document target [] = []
edges_to document target (d ∷ ds) =
    let rest = edges_to document target ds in
    if contains (map (λ a. a.path) document) d
    then record { source = d; target = target } ∷ rest
    else rest

all_edges : ArtifactDocument → List Artifact → List GraphEdge
unfolding edges_to
all_edges document [] = []
all_edges document (a ∷ rest) =
    edges_to document a.path (sorted str_leb a.dependencies) ++ all_edges document rest

unfoldable pub build_graph : ArtifactDocument → ArtifactGraph
unfolding all_edges
build_graph document = record {
  nodes =
      map (λ a. record { id = a.id; path = a.path; stage_id = a.stage_id; status = a.status })
        (sorted path_leb document);
  edges = all_edges document (sorted path_leb document);
}

-- `artifacts.json` is written, and then `adg.json`, each of which may raise
unfoldable pub save : ArtifactDocument → Registry (Unit {0})
unfolding build_graph
save document files =
    if not files.writable
    then raised (os_error "artifacts.json")
        (record files { content = if files.torn then corrupt else files.content })
    else if not files.graph_writable
    then raised (os_error "adg.json") (record files {
      content = stored document;
      graph = if files.torn then none else files.graph;
    })
    else done tt (record files { content = stored document; graph = some (build_graph document) })

abbrev pub status_eq : ArtifactStatus → ArtifactStatus → Bool
status_eq fresh fresh = true
status_eq stale stale = true
status_eq missing missing = true
status_eq _ _ = false

with_status : Option ArtifactStatus → ArtifactDocument → ArtifactDocument
with_status none document = document
with_status (some status) document = filter (λ a. status_eq a.status status) document

of_stage : Option String → ArtifactDocument → ArtifactDocument
of_stage none document = document
of_stage (some stage_id) document = filter (λ a. opt_eq a.stage_id stage_id) document

-- `list`, on a loaded document
unfoldable pub list : Option ArtifactStatus → Option String → ArtifactDocument → List Artifact
unfolding with_status of_stage
list status stage_id document = sorted path_leb (of_stage stage_id (with_status status document))
