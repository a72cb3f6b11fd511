-- ===== src/Artifacts/Registry/Safe.antt =====
-- Calls that keep the stored document indexed, and what they return.
use mathlib.Core.Path.{subst}
use forge_os.Base.{
  String, Bool, true, false, Option, none, some, List, [], ◌∷◌, ◌≡◌, refl, ap, sym, ◌∙◌, inl, inr,
  All, AllDifferent, Bool-cases, if◌then◌else◌,
}
use forge_os.Base.Outcome.{Outcome, done, raised, after}
use forge_os.Host.{Host}
use forge_os.Artifacts.{
  Artifact, ArtifactDocument, ArtifactFiles, Stored, absent, corrupt, stored, validated_artifact,
  validated, load_validated, load_stored, load, save,
}
use forge_os.Artifacts.Names.{with_slashes, is_refused}
use forge_os.Artifacts.Registry.{rebuild_dependents}
use forge_os.Artifacts.Registry.Dual.{paths}
use forge_os.Artifacts.Registry.Edges.{IsDual, rebuild_dependents-IsDual}
use forge_os.Artifacts.Registry.Paths.{with_slashes-twice}

-- `str.strip` leaves no space at the ends, and a slash for a backslash adds none
abbrev pub IsStripped : Host → Type 0
IsStripped host =
    (s : String) → host.strip (with_slashes (host.strip s)) ≡ with_slashes (host.strip s)

-- a path that the normalisation of a path gave
abbrev pub IsNormal : Host → String → Type 0
IsNormal host path = (s : String) × (path ≡ with_slashes (host.strip s))

-- every path is normalised, and is there once
abbrev pub Different : Host → ArtifactDocument → Type 0
Different host document = All (IsNormal host) (paths document) × AllDifferent (paths document)

-- and the dependents are the reverse of the dependencies
abbrev pub IsIndexed : Host → Stored → Type 0
IsIndexed host absent = Unit
IsIndexed host corrupt = Unit
IsIndexed host (stored document) = Different host document × IsDual document

pub same-Different :
    (host : Host) (ps : List String) (document : ArtifactDocument)
    → paths document ≡ ps
    → All (IsNormal host) ps × AllDifferent ps
    → Different host document
same-Different host ps document same u =
    subst (λ l. All (IsNormal host) l × AllDifferent l) (sym same) u

-- a document with other paths than it had has been rebuilt
pub rebuilt-IsIndexed :
    (host : Host) (document : ArtifactDocument)
    → Different host document
    → IsIndexed host (stored (rebuild_dependents document))
rebuilt-IsIndexed host document u =
    let (same, dual) = rebuild_dependents-IsDual document u.1 in
    (same-Different host (paths document) (rebuild_dependents document) same u, dual)

-- The stored document is indexed, and of what was returned `R` holds.
abbrev pub Safe : Host → {A : Type 0} → (A → Type 0) → Outcome ArtifactFiles A → Type 0
Safe host R (done a v) = IsIndexed host v.content × R a
Safe host R (raised e v) = IsIndexed host v.content

pub Safe-bind :
    (host : Host) {A B : Type 0} (R : A → Type 0) (Q : B → Type 0) (o : Outcome ArtifactFiles A)
    (f : A → ArtifactFiles → Outcome ArtifactFiles B)
    → Safe host R o
    → ((a : A) (v : ArtifactFiles) → IsIndexed host v.content → R a → Safe host Q (f a v))
    → Safe host {A = B} Q (elim o [ done a v ↦ f a v | raised e v ↦ raised e v ])
Safe-bind host R Q (done a v) f h k = k a v h.0 h.1
Safe-bind host R Q (raised e v) f h k = h

pub Safe-after :
    (host : Host) {A : Type 0} (R : A → Type 0) (o : Outcome ArtifactFiles A)
    → Safe host R o
    → IsIndexed host (after o).content
Safe-after host R (done a v) h = h.0
Safe-after host R (raised e v) h = h

-- a normalised path is normalised to itself
pub normal-twice :
    (host : Host)
    → IsStripped host
    → (path : String) → IsNormal host path
    → with_slashes (host.strip path) ≡ path
normal-twice host strip path (s, n) =
    ap (λ z. with_slashes (host.strip z)) n
    ∙ ap with_slashes (strip s)
    ∙ with_slashes-twice (host.strip s)
    ∙ sym n

module _ (host : Host) (strip : IsStripped host) where
  -- the path of an artifact that is there
  abbrev HasPath : String → Option Artifact → Type 0
  HasPath path none = Unit
  HasPath path (some a) = a.path ≡ path

  -- the paths of a document that is there
  abbrev HasPaths : List String → Option ArtifactDocument → Type 0
  HasPaths ps none = Unit
  HasPaths ps (some d) = paths d ≡ ps

  validated_artifact-path :
      (a : Artifact) → IsNormal host a.path → HasPath a.path (validated_artifact host a)
  unfolding validated_artifact
  validated_artifact-path a n = elim (Bool-cases (is_refused (with_slashes (host.strip a.path)))) [
    | inl e ↦ rw e tt
    | inr e ↦ rw e (normal-twice host strip a.path n)
  ]

  cons-paths :
      (path : String) (ps : List String) (o : Option Artifact) (p : Option ArtifactDocument)
      → HasPath path o
      → HasPaths ps p
      → HasPaths
          (path ∷ ps)
          (elim o [ none ↦ none | some b ↦ elim p [ none ↦ none | some bs ↦ some (b ∷ bs) ] ])
  cons-paths path ps none p h k = tt
  cons-paths path ps (some b) none h k = tt
  cons-paths path ps (some b) (some bs) h k = λ i. h i ∷ k i

  validated-paths :
      (document : ArtifactDocument)
      → All (IsNormal host) (paths document)
      → HasPaths (paths document) (validated host document)
  unfolding validated
  validated-paths [] n = refl
  validated-paths (a ∷ rest) n =
      cons-paths a.path (paths rest) (validated_artifact host a) (validated host rest)
        (validated_artifact-path a n.0) (validated-paths rest n.1)

  load_validated-Safe :
      (ps : List String) (o : Option ArtifactDocument) (files : ArtifactFiles)
      → IsIndexed host files.content
      → All (IsNormal host) ps × AllDifferent ps
      → HasPaths ps o
      → Safe host (Different host) (load_validated host o files)
  unfolding load_validated
  load_validated-Safe ps none files h u k = h
  load_validated-Safe ps (some d) files h u k = (h, same-Different host ps d k u)

  load_stored-Safe :
      (s : Stored) (files : ArtifactFiles)
      → IsIndexed host files.content
      → IsIndexed host s
      → Safe host (Different host) (load_stored host s files)
  unfolding load_stored
  load_stored-Safe absent files h k = (h, (tt, tt))
  load_stored-Safe corrupt files h k = h
  load_stored-Safe (stored d) files h k =
      load_validated-Safe (paths d) (validated host d) files h k.0 (validated-paths d k.0.0)

  pub load-Safe :
      (files : ArtifactFiles)
      → IsIndexed host files.content
      → Safe host (Different host) (load host files)
  unfolding load
  load-Safe files h = load_stored-Safe files.content files h h

  torn-IsIndexed :
      (torn : Bool) (s : Stored) → IsIndexed host s → IsIndexed host (if torn then corrupt else s)
  torn-IsIndexed true s h = tt
  torn-IsIndexed false s h = h

  pub save-Safe :
      (document : ArtifactDocument) (files : ArtifactFiles)
      → IsIndexed host files.content
      → IsIndexed host (stored document)
      → Safe host (λ _. Unit {0}) (save document files)
  unfolding save
  save-Safe document files h k = elim (Bool-cases files.writable) [
    | inl e ↦
        rw e (elim (Bool-cases files.graph_writable) [ inl g ↦ rw g (k, tt) | inr g ↦ rw g k ])
    | inr e ↦ rw e (torn-IsIndexed files.torn files.content h)
  ]
