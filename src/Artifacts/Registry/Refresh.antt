-- ===== src/Artifacts/Registry/Refresh.antt =====
-- context/registry.py: the refresh against the project's files, and the spread of staleness.
pub mod Depends
pub mod Marks
pub mod Turns
pub mod Outdated
pub mod Rounds
pub mod Spreads
use Prim.Native.Char.{code}
use Prim.Native.Nat.{◌/◌}
use forge_os.Base.{
  ℕ, zero, suc, ◌+◌, String, Bool, true, false, not, ◌&&◌, ◌||◌, Option, none, some, List, [], ◌∷◌,
  ◌++◌, ◌<>◌, map, filter, find?, contains, length, max, nat_beq, if◌then◌else◌, ◌==◌, opt_eq,
  is_none,
}
use forge_os.Base.Dict.{Dict, lookup, insert, update}
use forge_os.Base.Outcome.{
  Action, Outcome, done, raised, raise, pure, artifact_error, validation_error, ◌>>=◌, ◌>>◌,
}
use forge_os.Base.Sort.{sorted}
use forge_os.Base.Text.{str_leb, codes}
use forge_os.Events.Model.{Value, text}
use forge_os.Host.{Host}
use forge_os.Artifacts.{
  Artifact, ArtifactDocument, ArtifactStatus, fresh, stale, missing, status_eq, ArtifactFiles,
  Registry, find, load, save,
}
use forge_os.Artifacts.Registry.{Snapshot, on_last, rebuild_dependents, snapshot}

-- the object at a place of the document changes
unfoldable pub update_at : ℕ → (Artifact → Artifact) → ArtifactDocument → ArtifactDocument
update_at i f [] = []
update_at zero f (a ∷ rest) = f a ∷ rest
update_at (suc i) f (a ∷ rest) = a ∷ update_at i f rest

-- an artifact of a document, by its place, with the path and the dependencies that `refresh` reads
abbrev pub Ref : Type 0
Ref = ℕ × Artifact

unfoldable pub refs_from : ℕ → ArtifactDocument → List Ref
refs_from i [] = []
refs_from i (a ∷ rest) = (i, a) ∷ refs_from (suc i) rest

-- the document while it is refreshed, the set `visited`, and the readings of the clock
pub record Refreshing : Type 0 where
  pub visited : List String
  pub document : ArtifactDocument
  pub tick : ℕ

-- `{artifact.path: artifact.content_hash for artifact in document.artifacts}`
unfoldable pub before_hashes : ArtifactDocument → Dict (Option String) → Dict (Option String)
unfolding insert
before_hashes [] hashes = hashes
before_hashes (a ∷ rest) hashes = before_hashes rest (insert a.path a.content_hash hashes)

same_hash : Option (Option String) → Option String → Bool
same_hash none none = true
same_hash none (some h) = false
same_hash (some none) none = true
same_hash (some none) (some h) = false
same_hash (some (some g)) none = false
same_hash (some (some g)) (some h) = g == h

abbrev pub freshened : Artifact → Artifact
freshened a = if status_eq a.status missing then a else record a { status = fresh }

-- more than there are paths
unfoldable pub mark_depth : List Ref → ℕ
mark_depth refs = suc (suc (length refs))

unfoldable pub renewed_status : ArtifactStatus → ArtifactStatus → ArtifactStatus
renewed_status found old =
    if status_eq found missing then missing else if status_eq old stale then stale else fresh

module _ (host : Host) where
  -- `artifact.status = "stale"; artifact.updated_at = utc_now()`
  unfoldable pub touch : ℕ → Refreshing → Refreshing
  unfolding update_at
  touch i s = record s {
    document =
        update_at i (λ a. record a { status = stale; updated_at = host.utc_now s.tick }) s.document;
    tick = s.tick + 1;
  }

  -- one turn of the loop in `mark`
  unfoldable pub mark_one :
      (String → Refreshing → Option Refreshing) → String → Ref → Refreshing → Option Refreshing
  unfolding touch
  mark_one mark current (i, a) s =
      if contains a.dependencies current then mark a.path (touch i s) else some s

  unfoldable pub mark_dependents :
      (String → Refreshing → Option Refreshing) → String → List Ref → Refreshing → Option Refreshing
  unfolding mark_one
  mark_dependents mark current [] s = some s
  mark_dependents mark current (r ∷ rest) s = elim (mark_one mark current r s) [
    | none ↦ none
    | some t ↦ mark_dependents mark current rest t
  ]

  -- `mark`, on fuel for the depth of the recursion
  unfoldable pub mark : ℕ → List Ref → String → Refreshing → Option Refreshing
  unfolding mark_dependents
  mark zero refs current s = none
  mark (suc fuel) refs current s =
      if contains s.visited current
      then some s
      else mark_dependents (mark fuel refs) current refs
          (record s { visited = s.visited ++ current ∷ [] })

  -- `_mark_downstream_stale`
  unfoldable pub mark_downstream_stale : List Ref → String → Refreshing → Option Refreshing
  unfolding mark on_last mark_depth
  mark_downstream_stale refs path s =
      elim (mark (mark_depth refs) refs path (record s { visited = [] })) [
        | none ↦ none
        | some t ↦ some (record t { document = on_last path freshened t.document })
      ]

  unfoldable pub renew : Snapshot → ℕ → Artifact → Artifact
  unfolding renewed_status
  renew found tick a = record a {
    status = renewed_status found.status a.status;
    content_hash = found.content_hash;
    modified_at = found.modified_at;
    token_estimate = found.token_estimate;
    updated_at = host.utc_now tick;
  }

  -- `changed and new_status != "missing"`
  unfoldable pub is_changed : Dict (Option String) → String → Bool
  unfolding same_hash snapshot
  is_changed hashes path =
      not (same_hash (lookup path hashes) (snapshot host path).content_hash)
      && not (status_eq (snapshot host path).status missing)

  -- one turn of the loop in `refresh`
  unfoldable pub refresh_one :
      Dict (Option String) → List Ref → Ref → Refreshing → Option Refreshing
  unfolding update_at snapshot renew is_changed mark_downstream_stale
  refresh_one hashes refs (i, a) s =
      let next : Refreshing = record s {
        document = update_at i (renew (snapshot host a.path) s.tick) s.document;
        tick = s.tick + 1;
      } in
      if is_changed hashes a.path then mark_downstream_stale refs a.path next else some next

  unfoldable pub refresh_all :
      Dict (Option String) → List Ref → List Ref → Refreshing → Option Refreshing
  unfolding refresh_one
  refresh_all hashes refs [] s = some s
  refresh_all hashes refs (r ∷ rest) s = elim (refresh_one hashes refs r s) [
    | none ↦ none
    | some t ↦ refresh_all hashes refs rest t
  ]

  -- the document that `refresh` saves, if the recursion ends
  unfoldable pub refreshed : ℕ → ArtifactDocument → Option ArtifactDocument
  unfolding refresh_all refs_from before_hashes rebuild_dependents
  refreshed tick document =
      elim (refresh_all (before_hashes document []) (refs_from 0 document) (refs_from 0 document)
        (record { visited = []; document = document; tick = tick })) [
          | none ↦ none
          | some t ↦ some (rebuild_dependents t.document)
        ]

  unfoldable pub save_refreshed : Option ArtifactDocument → Registry ArtifactDocument
  save_refreshed none = raise (artifact_error "recursion")
  save_refreshed (some document) = do save document; pure document

  unfoldable pub refresh : ℕ → Registry ArtifactDocument
  unfolding refreshed save_refreshed
  refresh tick = do document ← load host; save_refreshed (refreshed tick document)
