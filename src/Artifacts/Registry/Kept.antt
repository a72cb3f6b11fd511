-- ===== src/Artifacts/Registry/Kept.antt =====
-- Calls on the registry, in sequence, and the invariant of the stored document.
use forge_os.Base.{
  ℕ, ◌+◌, ◌++◌, String, false, not, ◌||◌, Option, none, some, List, [], ◌∷◌, ◌≡◌, refl, ap, ◌∙◌,
  inl, inr, contains, ◌==◌, All-append, Bool-cases,
}
use forge_os.Base.Dict.{Dict}
use forge_os.Base.Outcome.{Outcome, done, raised, after, IfDone}
use forge_os.Events.Model.{Value}
use forge_os.Host.{Host}
use forge_os.Artifacts.{Artifact, ArtifactDocument, ArtifactFiles, stored, load, save, find}
use forge_os.Artifacts.Registry.{
  with_slashes, registered_again, snapshot, put, new_artifact, normalize_path, register,
  default_dependencies, register_stage_outputs, rebuild_dependents, is_refused,
}
use forge_os.Artifacts.Registry.Dual.{paths}
use forge_os.Artifacts.Registry.Refresh.{
  Refreshing, refreshed, save_refreshed, refs_from, before_hashes, refresh,
}
use forge_os.Artifacts.Registry.Paths.{
  HasPaths, refresh_all-paths, on_first-paths, AllDifferent-snoc, find-none, paths-append,
}
use forge_os.Artifacts.Registry.Safe.{
  IsStripped, IsNormal, Different, IsIndexed, same-Different, rebuilt-IsIndexed, Safe, Safe-bind,
  Safe-after, normal-twice, load-Safe, save-Safe,
}

-- the calls that change the registry
pub data RegistryCall : Type 0 where
  register_call : ℕ → String → Option String → List String → String → Dict (Value ℕ) → RegistryCall
  outputs_call : ℕ → String → List String → RegistryCall
  refresh_call : ℕ → RegistryCall

module _ (host : Host) where
  unfoldable pub registry_call : RegistryCall → ArtifactFiles → ArtifactFiles
  unfolding register register_stage_outputs refresh
  registry_call (register_call tick path stage_id dependencies kind metadata) files =
      after (register host tick path stage_id dependencies kind metadata files)
  registry_call (outputs_call tick stage_id output_paths) files =
      after (register_stage_outputs host tick stage_id output_paths files)
  registry_call (refresh_call tick) files = after (refresh host tick files)

  unfoldable pub registry_calls : List RegistryCall → ArtifactFiles → ArtifactFiles
  unfolding registry_call
  registry_calls [] files = files
  registry_calls (c ∷ cs) files = registry_calls cs (registry_call c files)

module _ (host : Host) (strip : IsStripped host) where
  normalize_path-Safe :
      (path : String) (files : ArtifactFiles)
      → IsIndexed host files.content
      → Safe host (IsNormal host) (normalize_path host path files)
  unfolding normalize_path
  normalize_path-Safe path files h =
      elim (Bool-cases (is_refused (with_slashes (host.strip path)))) [
        | inl e ↦ rw e h
        | inr e ↦ rw e (h, (path, refl))
      ]

  new_artifact-Safe :
      (tick : ℕ) (path : String) (stage_id : Option String) (dependencies : List String)
      (kind : String) (metadata : Dict (Value ℕ)) (files : ArtifactFiles)
      → IsIndexed host files.content
      → IsNormal host path
      → Safe host
          (λ a. a.path ≡ path)
          (new_artifact host tick path
            (snapshot host path)
            stage_id
            dependencies
            kind
            metadata
            files)
  unfolding new_artifact
  new_artifact-Safe tick path stage_id dependencies kind metadata files h n =
      elim (Bool-cases (is_refused (with_slashes (host.strip path)))) [
        | inl e ↦ rw e h
        | inr e ↦ rw e (h, normal-twice host strip path n)
      ]

  appended-Different :
      (document : ArtifactDocument) (a : Artifact) (path : String)
      → a.path ≡ path
      → IsNormal host path
      → Different host document
      → contains (paths document) path ≡ false
      → Different host (document ++ a ∷ [])
  appended-Different document a path p n u new =
      same-Different host (paths document ++ path ∷ []) _
        (paths-append document a ∙ ap (λ z. paths document ++ z ∷ []) p)
        (
          All-append (IsNormal host) (paths document) (path ∷ []) u.0 (n, tt),
          AllDifferent-snoc (paths document) path u.1 new,
        )

  put-Safe :
      (tick : ℕ) (path : String) (stage_id : Option String) (dependencies : List String)
      (kind : String) (metadata : Dict (Value ℕ)) (document : ArtifactDocument)
      (files : ArtifactFiles)
      → IsIndexed host files.content
      → IsNormal host path
      → Different host document
      → (o : Option Artifact) → find document path ≡ o
      → Safe host
          (Different host)
          (put host tick path stage_id dependencies kind metadata document o files)
  unfolding put
  put-Safe tick path stage_id dependencies kind metadata document files h n u none e =
      Safe-bind host (λ a. a.path ≡ path) (Different host)
        (new_artifact host tick path (snapshot host path) stage_id dependencies kind metadata files)
        _ (new_artifact-Safe tick path stage_id dependencies kind metadata files h n)
        (λ a v k p. (k, appended-Different document a path p n u (find-none document path e)))
  put-Safe tick path stage_id dependencies kind metadata document files h n u (some old) e = (
    h,
    same-Different host (paths document) _
        (on_first-paths host path
          (registered_again host tick (snapshot host path) stage_id dependencies kind metadata)
          (λ b. refl) document)
        u,
  )

  register-Safe :
      (tick : ℕ) (path : String) (stage_id : Option String) (dependencies : List String)
      (kind : String) (metadata : Dict (Value ℕ)) (files : ArtifactFiles)
      → IsIndexed host files.content
      → Safe host
          (λ _. Unit {0})
          (register host tick path stage_id dependencies kind metadata files)
  unfolding register
  register-Safe tick path stage_id dependencies kind metadata files h =
      Safe-bind host (Different host) (λ _. Unit {0}) (load host files) _
        (load-Safe host strip files h)
        (λ document v k u.
          Safe-bind host (IsNormal host) (λ _. Unit {0}) (normalize_path host path v) _
            (normalize_path-Safe path v k)
            (λ normalized v' k' n.
              Safe-bind host (Different host) (λ _. Unit {0})
                (put host tick normalized stage_id dependencies kind metadata document
                  (find document normalized) v')
                _
                (put-Safe tick normalized stage_id dependencies kind metadata document v' k' n u
                  (find document normalized) refl)
                (λ next x k'' u'.
                  save-Safe host strip (rebuild_dependents next) x k''
                    (rebuilt-IsIndexed host next u'))))

  default_dependencies-Safe :
      (stage_id : String) (files : ArtifactFiles)
      → IsIndexed host files.content
      → Safe host (λ _. Unit {0}) (default_dependencies host stage_id files)
  unfolding default_dependencies
  default_dependencies-Safe stage_id files h =
      elim (Bool-cases (stage_id == "srs" || not (host.exists "pipeline/stages.yaml"))) [
        | inl e ↦ rw e (h, tt)
        | inr e ↦ rw e (
            Safe-bind host (Different host) (λ _. Unit {0}) (load host files) _
              (load-Safe host strip files h) (λ document v k u. (k, tt)))
      ]

  register_stage_outputs-Safe :
      (tick : ℕ) (stage_id : String) (output_paths : List String) (files : ArtifactFiles)
      → IsIndexed host files.content
      → Safe host (λ _. Unit {0}) (register_stage_outputs host tick stage_id output_paths files)
  unfolding register_stage_outputs
  register_stage_outputs-Safe tick stage_id [] files h = (h, tt)
  register_stage_outputs-Safe tick stage_id (path ∷ rest) files h =
      Safe-bind host (λ _. Unit {0}) (λ _. Unit {0}) (default_dependencies host stage_id files) _
        (default_dependencies-Safe stage_id files h)
        (λ dependencies v k _.
          Safe-bind host (λ _. Unit {0}) (λ _. Unit {0})
            (register host tick path (some stage_id) dependencies "file" _ v) _
            (register-Safe tick path (some stage_id) dependencies "file" _ v k)
            (λ _ x k' _. register_stage_outputs-Safe (tick + 1) stage_id rest x k'))

  -- a document that is there is indexed
  abbrev IfIndexed : Option ArtifactDocument → Type 0
  IfIndexed none = Unit
  IfIndexed (some d) = IsIndexed host (stored d)

  rebuilt-IfIndexed :
      (document : ArtifactDocument) (o : Option Refreshing)
      → HasPaths (paths document) o
      → Different host document
      → IfIndexed (elim o [ none ↦ none | some t ↦ some (rebuild_dependents t.document) ])
  rebuilt-IfIndexed document none h u = tt
  rebuilt-IfIndexed document (some t) h u =
      rebuilt-IsIndexed host t.document (same-Different host (paths document) t.document h u)

  save_refreshed-Safe :
      (o : Option ArtifactDocument) (files : ArtifactFiles)
      → IsIndexed host files.content
      → IfIndexed o
      → Safe host (λ _. Unit {0}) (save_refreshed host o files)
  unfolding save_refreshed
  save_refreshed-Safe none files h k = h
  save_refreshed-Safe (some d) files h k =
      Safe-bind host (λ _. Unit {0}) (λ _. Unit {0}) (save d files) _
        (save-Safe host strip d files h k) (λ _ v k' _. (k', tt))

  refresh-Safe :
      (tick : ℕ) (files : ArtifactFiles)
      → IsIndexed host files.content
      → Safe host (λ _. Unit {0}) (refresh host tick files)
  unfolding refresh refreshed
  refresh-Safe tick files h =
      Safe-bind host (Different host) (λ _. Unit {0}) (load host files) _
        (load-Safe host strip files h)
        (λ document v k u. save_refreshed-Safe (refreshed host tick document) v k (
          rebuilt-IfIndexed document _
            (refresh_all-paths host (paths document) (before_hashes document [])
              (refs_from 0 document) (refs_from 0 document)
              (record { visited = []; document = document; tick = tick }) refl)
            u))

  calls-IsIndexed :
      (calls : List RegistryCall) (files : ArtifactFiles)
      → IsIndexed host files.content
      → IsIndexed host (registry_calls host calls files).content
  unfolding registry_calls registry_call
  calls-IsIndexed [] files h = h
  calls-IsIndexed (register_call tick path stage_id dependencies kind metadata ∷ cs) files h =
      calls-IsIndexed cs _ (
        Safe-after host (λ _. Unit {0})
          (register host tick path stage_id dependencies kind metadata files)
          (register-Safe tick path stage_id dependencies kind metadata files h))
  calls-IsIndexed (outputs_call tick stage_id output_paths ∷ cs) files h = calls-IsIndexed cs _ (
      Safe-after host (λ _. Unit {0}) (register_stage_outputs host tick stage_id output_paths files)
        (register_stage_outputs-Safe tick stage_id output_paths files h))
  calls-IsIndexed (refresh_call tick ∷ cs) files h =
      calls-IsIndexed cs _
        (Safe-after host (λ _. Unit {0}) (refresh host tick files) (refresh-Safe tick files h))

  read-Different :
      (o : Outcome ArtifactFiles ArtifactDocument)
      → Safe host (Different host) o
      → IfDone o (λ document _. Different host document)
  read-Different (done document files) h = h.1
  read-Different (raised e files) h = tt

  -- If the document in the file has every path once and normalised, and dependents that are the
  -- reverse of the dependencies, so has the document as it is written by any sequence of
  -- registrations, registrations of a stage's outputs and refreshes, failed ones and failed writes
  -- included, each of which reads it with its paths and edges normalised again; and a document that
  -- is read afterwards has every path once and normalised. That a stripped text with slashes for
  -- its backslashes is stripped is assumed.
  pub registry_calls-IsIndexed :
      (calls : List RegistryCall) (files : ArtifactFiles)
      → IsIndexed host files.content
      → IsIndexed host (registry_calls host calls files).content
        × IfDone
            (load host (registry_calls host calls files))
            (λ document _. Different host document)
  registry_calls-IsIndexed calls files h =
      let k = calls-IsIndexed calls files h in
      (
        k,
        read-Different (load host (registry_calls host calls files))
            (load-Safe host strip (registry_calls host calls files) k),
      )
