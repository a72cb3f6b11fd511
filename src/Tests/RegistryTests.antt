-- ===== src/Tests/RegistryTests.antt =====
-- The registry's and the pruner's theorems at a small project.
use forge_os.Base.{
  ℕ, String, true, Option, none, some, List, [], ◌∷◌, ◌≡◌, refl, ap, sym, ◌∙◌, map, All, All-has,
  nat_beq, if◌then◌else◌,
}
use forge_os.Base.Dict.{Dict, lookup, insert}
use forge_os.Base.Sort.{sorted}
use forge_os.Base.Text.{str_leb}
use forge_os.Base.Outcome.{done, IfDone}
use forge_os.Host.{Host, Attempt, value, error}
use forge_os.Artifacts.{
  load, load_stored, load_validated, validated, validated_artifact, ArtifactDocument, ArtifactFiles,
  ArtifactStatus, fresh, stale, absent, stored, build_graph,
}
use forge_os.Artifacts.Names.{with_slashes, segments, is_refused, normalize_edges}
use forge_os.Artifacts.Registry.{rebuild_dependents}
use forge_os.Artifacts.Registry.Refresh.{refreshed, refresh}
use forge_os.Artifacts.Registry.Refresh.Spreads.{IsSpread, refresh_spreads}
use forge_os.Artifacts.Registry.Kept.{
  RegistryCall, register_call, outputs_call, refresh_call, registry_calls, registry_calls-IsIndexed,
}
use forge_os.Artifacts.Registry.Safe.{IsIndexed, Different}
use forge_os.Artifacts.Selection.{by_path}
use forge_os.Artifacts.Selection.Spread.{stage_paths, spread_activation_priorities}
use forge_os.Artifacts.Selection.Spread.Distance.{IsDistance}
use forge_os.Artifacts.Selection.Spread.Shortest.{spread_activation_priorities-IsDistance}
use forge_os.Artifacts.Selection.Cache.{
  Disk, disks, IsStamped, CacheCall, read_call, clear_call, no_caches, run_reads, plain_reads,
  run_reads_lem,
}
use forge_os.Artifacts.Pruner.{ContextFiles}
use forge_os.Tests.Sample.{sample_host}
use forge_os.Tests.ArtifactTests.{sample_artifact}

-- a host that strips nothing
abbrev registry_host : Host
registry_host = record sample_host { strip = λ s. s }

-- `a.md` has changed; `b.md` depends on it, and `c.md` on `b.md`; `d.md` stands alone
abbrev chain : ArtifactDocument
chain =
    sample_artifact "a.md" "srs" [] []
    ∷ record (sample_artifact "b.md" "design" ("a.md" ∷ []) []) { content_hash = some "hash" }
    ∷ record (sample_artifact "c.md" "design" ("b.md" ∷ []) []) { content_hash = some "hash" }
    ∷ record (sample_artifact "d.md" "design" [] []) { content_hash = some "hash" }
    ∷ []

abbrev statuses : Option ArtifactDocument → List (String × ArtifactStatus)
statuses none = []
statuses (some document) = map (λ a. (a.path, a.status)) document

chain_is_marked :
    statuses (refreshed registry_host 0 chain)
    ≡ ("a.md", fresh) ∷ ("b.md", stale) ∷ ("c.md", stale) ∷ ("d.md", fresh) ∷ []
unfolding refreshed rebuild_dependents lookup
chain_is_marked = refl

abbrev chain_files : ArtifactFiles
chain_files = record {
  content = stored chain;
  graph = none;
  writable = true;
  graph_writable = true;
  torn = true;
}

chain_loads : load registry_host chain_files ≡ done chain chain_files
unfolding load load_stored load_validated validated validated_artifact with_slashes is_refused
    normalize_edges segments
chain_loads = refl

refresh_spreads_example :
    (d : ArtifactDocument) × (refresh registry_host 0 chain_files
      ≡ done d (record chain_files { content = stored d; graph = some (build_graph d) }))
    × IsSpread registry_host chain d
refresh_spreads_example = refresh_spreads registry_host 0 chain_files chain chain_loads refl refl

abbrev no_files : ArtifactFiles
no_files = record {
  content = absent;
  graph = none;
  writable = true;
  graph_writable = true;
  torn = true;
}

abbrev some_calls : List RegistryCall
some_calls =
    register_call 0 "a.md" none [] "file" []
    ∷ outputs_call 1 "design" ("b.md" ∷ "c.md" ∷ [])
    ∷ refresh_call 3
    ∷ []

registry_calls-IsIndexed_example :
    IsIndexed registry_host (registry_calls registry_host some_calls no_files).content
    × IfDone
        (load registry_host (registry_calls registry_host some_calls no_files))
        (λ document _. Different registry_host document)
registry_calls-IsIndexed_example =
    registry_calls-IsIndexed registry_host (λ s. refl) some_calls no_files tt

chain_distances :
    spread_activation_priorities "design" chain
    ≡ some (("b.md", 0) ∷ ("a.md", 1) ∷ ("c.md", 0) ∷ ("d.md", 0) ∷ [])
unfolding spread_activation_priorities by_path sorted str_leb lookup insert
chain_distances = refl

spread_activation_priorities-IsDistance_example :
    (d : Dict ℕ) × (spread_activation_priorities "design" chain ≡ some d)
    × IsDistance (by_path chain []) (stage_paths "design" chain) d
spread_activation_priorities-IsDistance_example =
    spread_activation_priorities-IsDistance "design" chain

abbrev disk_at : ℕ → String → Disk
disk_at time content = record { mtime = λ path. value time; content = λ path. value content }

abbrev some_reads : List CacheCall
some_reads =
    read_call (disk_at 1 "old") "a.md"
    ∷ read_call (disk_at 1 "old") "b.md"
    ∷ read_call (disk_at 1 "old") "a.md"
    ∷ read_call (disk_at 2 "new") "a.md"
    ∷ clear_call
    ∷ read_call (disk_at 2 "new") "a.md"
    ∷ []

abbrev text_at : Attempt ℕ → Attempt String
text_at (value time) = value (if nat_beq time 1 then "old" else "new")
text_at (error message) = error message

some_disks : (path : String) → All (λ d. d.content path ≡ text_at (d.mtime path)) (disks some_reads)
some_disks path = (refl, (refl, (refl, (refl, (refl, tt)))))

some_disks-IsStamped : IsStamped (disks some_reads)
some_disks-IsStamped d e path mtime m n p q =
    All-has (λ x. x.content path ≡ text_at (x.mtime path)) d (disks some_reads) (some_disks path) m
    ∙ ap text_at (p ∙ sym q)
    ∙ sym (
        All-has (λ x. x.content path ≡ text_at (x.mtime path)) e (disks some_reads)
          (some_disks path) n)

run_reads_lem_example : run_reads some_reads no_caches ≡ plain_reads some_reads
run_reads_lem_example = run_reads_lem some_reads some_disks-IsStamped

abbrev chain_context : ContextFiles
chain_context = record { artifacts = chain_files; audit = [] }
