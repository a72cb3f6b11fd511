-- ===== src/Artifacts/Registry/Refresh/Spreads.antt =====
-- `refresh` as a whole.
use mathlib.Core.Path.{subst}
use forge_os.Base.{
  ℕ, zero, suc, ◌+◌, String, true, false, Option, none, some, List, [], ◌∷◌, ◌++◌, ◌≡◌, refl, ap,
  sym, ◌∙◌, inl, inr, arith, get_elem?, map, contains, Bool-cases, All-of_Has, Has,
}
use forge_os.Base.Outcome.{Outcome, done, raised}
use forge_os.Host.{Host}
use forge_os.Artifacts.{
  Artifact, ArtifactDocument, ArtifactFiles, stored, build_graph, load, save, stale, status_eq,
}
use forge_os.Artifacts.Registry.{
  add_edges, add_all_edges, append_dependent, clear_dependents, sort_dependents, rebuild_dependents,
}
use forge_os.Artifacts.Registry.Refresh.{
  Ref, Refreshing, refs_from, before_hashes, is_changed, refreshed, save_refreshed, refresh,
}
use forge_os.Artifacts.Registry.Refresh.Depends.{DependsAt}
use forge_os.Artifacts.Registry.Refresh.Turns.{At, on_last-At}
use forge_os.Artifacts.Registry.Refresh.Outdated.{is_missing, IsOutdated, IsFresh}
use forge_os.Artifacts.Registry.Refresh.Rounds.{refresh_all-Rounds}

refs_from-get :
    (k : ℕ) (d : ArtifactDocument) (i : ℕ) (a : Artifact)
    → Has (i, a) (refs_from k d)
    → (m : ℕ) × (i ≡ m + k) × (get_elem? d m ≡ some a)
unfolding refs_from
refs_from-get k [] i a m = absurd m
refs_from-get k (x ∷ rest) i a (inl e) =
    (0, sym (ap (λ (r : Ref). r.0) e) ∙ omega arith, ap (λ (r : Ref). some r.1) e)
refs_from-get k (x ∷ rest) i a (inr m) =
    let (n, e, q) = refs_from-get (suc k) rest i a m in (suc n, e ∙ omega arith, q)

get-refs_from :
    (k : ℕ) (d : ArtifactDocument) (i : ℕ) (a : Artifact)
    → get_elem? d i ≡ some a
    → Has (i + k, a) (refs_from k d)
unfolding refs_from
get-refs_from k [] i a h = absurd (ground (arith, h))
get-refs_from k (x ∷ rest) zero a h =
    let first : x ≡ a = ground (arith, h) in inl (λ j. (at_start j, first j))
  where
    at_start : k ≡ zero + k
    at_start = omega arith
get-refs_from k (x ∷ rest) (suc i) a h =
    let place : i + suc k ≡ suc i + k = omega arith in
    inr (subst (λ z. Has (z, a) (refs_from (suc k) rest)) place (get-refs_from (suc k) rest i a h))

in_refs :
    (d : ArtifactDocument) (i : ℕ) (a : Artifact)
    → get_elem? d i ≡ some a
    → Has (i, a) (refs_from 0 d)
in_refs d i a h =
    let place : i + 0 ≡ i = omega arith in
    subst (λ z. Has (z, a) (refs_from 0 d)) place (get-refs_from 0 d i a h)

of_refs :
    (d : ArtifactDocument) (i : ℕ) (a : Artifact)
    → Has (i, a) (refs_from 0 d)
    → get_elem? d i ≡ some a
of_refs d i a m =
    let (n, e, q) = refs_from-get 0 d i a m in
    let place : n ≡ i = omega (arith, e) in subst (λ z. get_elem? d z ≡ some a) place q

-- what says nothing of the dependents stays through their rebuilding
module _ (P : Artifact → Type 0)
    (free : (b : Artifact) (ds : List String) → P b → P (record b { dependents = ds }))
    (j : ℕ) where
  map-At :
      (f : Artifact → Artifact)
      → ((b : Artifact) → P b → P (f b))
      → (d : ArtifactDocument) (i : ℕ) → At d i P
      → At (map f d) i P
  map-At f keep [] i (b, e, p) = absurd (ground (arith, e))
  map-At f keep (x ∷ d) zero (b, e, p) = (f x, refl, keep x (subst P (unwrap e) p))
    where
      unwrap : some x ≡ some b → b ≡ x
      unwrap k = ground (arith, k)
  map-At f keep (x ∷ d) (suc i) (b, e, p) = map-At f keep d i (b, e, p)

  append_dependent-P : (path : String) (b : Artifact) → P b → P (append_dependent path b)
  append_dependent-P path b p = elim (Bool-cases (contains b.dependents path)) [
    | inl e ↦ rw e p
    | inr e ↦ rw e (free b (b.dependents ++ path ∷ []) p)
  ]

  add_edges-At :
      (path : String) (ds : List String) (d : ArtifactDocument)
      → At d j P
      → At (add_edges path ds d) j P
  unfolding add_edges
  add_edges-At path [] d h = h
  add_edges-At path (x ∷ ds) d h =
      add_edges-At path ds _
        (on_last-At P x (append_dependent path) (append_dependent-P path) d j h)

  add_all_edges-At :
      (items : List Artifact) (d : ArtifactDocument) → At d j P → At (add_all_edges items d) j P
  unfolding add_all_edges
  add_all_edges-At [] d h = h
  add_all_edges-At (a ∷ rest) d h = add_all_edges-At rest _ (add_edges-At a.path a.dependencies d h)

  rebuild_dependents-At : (d : ArtifactDocument) → At d j P → At (rebuild_dependents d) j P
  unfolding rebuild_dependents
  rebuild_dependents-At d h =
      map-At sort_dependents (λ b p. free b _ p) _ j
        (add_all_edges-At d (map clear_dependents d)
          (map-At clear_dependents (λ b p. free b [] p) d j h))

module _ (host : Host) where
  -- the artifact's file is there, with another hash than the document has for the path
  abbrev pub HasChanged : ArtifactDocument → String → Type 0
  HasChanged document path = is_changed host (before_hashes document []) path ≡ true

  abbrev pub IsDependent : ArtifactDocument → String → ℕ → Type 0
  IsDependent document path j = DependsAt (refs_from 0 document) path j

  -- A refresh from `document` to `d`, at the places of the artifacts that have not changed.
  abbrev pub IsSpread : ArtifactDocument → ArtifactDocument → Type 0
  IsSpread document d =
      (j : ℕ) (a : Artifact)
      → get_elem? document j ≡ some a
      → is_changed host (before_hashes document []) a.path ≡ false
      → ((i : ℕ) (c : Artifact)
          → get_elem? document i ≡ some c
          → HasChanged document c.path
          → IsDependent document c.path j
          → At d j (IsOutdated host a.path))
        × (((i : ℕ) (c : Artifact)
              → get_elem? document i ≡ some c
              → HasChanged document c.path
              → IsDependent document c.path j
              → ⊥)
            → is_missing host a.path ≡ false
            → status_eq a.status stale ≡ false
            → At d j (λ b. IsFresh host b))

  refreshed-IsSpread :
      (tick : ℕ) (document : ArtifactDocument)
      → (d : ArtifactDocument) × (refreshed host tick document ≡ some d) × IsSpread document d
  unfolding refreshed
  refreshed-IsSpread tick document =
      let refs : List Ref = refs_from 0 document in
      let (t, q, f) =
        refresh_all-Rounds host (before_hashes document []) refs refs
          (record { visited = []; document = document; tick = tick })
          (All-of_Has (λ r. Has r refs) refs (λ r m. m))
          (λ i a m. (a, of_refs document i a m, refl)) in
      (
        rebuild_dependents t.document,
        ap
            (λ (o : Option Refreshing). elim o [
              | none ↦ none
              | some u ↦ some (rebuild_dependents u.document)
            ])
            q,
        λ j a h un.
            let (_, comes, clean) = f j a (in_refs document j a h) un in
            (
              λ i c k changed dep.
                  rebuild_dependents-At (IsOutdated host a.path) (λ b ds p. p) j t.document
                    (comes i c (in_refs document i c k) changed dep),
              λ none_changed present unmarked.
                  rebuild_dependents-At (λ b. IsFresh host b) (λ b ds p. p) j t.document
                    ((clean
                        (All-of_Has _ refs (λ r m changed dep.
                          none_changed r.0 r.1 (of_refs document r.0 r.1 m) changed dep))
                        present).1
                      (in_refs document j a h) (a, h, unmarked)),
            ),
      )

  -- With a registry that can be read and written, `refresh` returns, and saves what it returns. In
  -- that document an artifact whose own file is as it was is stale (or missing with its file, which
  -- is gone) if it depends, over any number of steps, on an artifact whose file is there and
  -- changed; if it depends on no such, its file is there and it was not stale, it is fresh.
  pub refresh_spreads :
      (tick : ℕ) (files : ArtifactFiles) (document : ArtifactDocument)
      → load host files ≡ done document files
      → files.writable ≡ true
      → files.graph_writable ≡ true
      → (d : ArtifactDocument) × (refresh host tick files
          ≡ done d (record files { content = stored d; graph = some (build_graph d) }))
        × IsSpread document d
  unfolding refresh save_refreshed save
  refresh_spreads tick files document e w g =
      let (d, q, s) = refreshed-IsSpread tick document in
      (d, loaded document e ∙ rw (q, w, g) refl, s)
    where
      loaded :
          (document : ArtifactDocument)
          → load host files ≡ done document files
          → refresh host tick files ≡ save_refreshed host (refreshed host tick document) files
      loaded document e =
          ap
            (λ (o : Outcome ArtifactFiles ArtifactDocument).
              elim o as (λ _. Outcome ArtifactFiles ArtifactDocument) [
                | done d v ↦ save_refreshed host (refreshed host tick d) v
                | raised x v ↦ raised x v
              ])
            e
