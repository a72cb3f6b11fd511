-- ===== src/Artifacts/Registry/Dual.antt =====
-- `_rebuild_dependents`: the dependents of an artifact are those that name it as a dependency.
use mathlib.Core.Path.{subst}
use forge_os.Base.{
  String, true, false, List, [], ◌∷◌, ◌≡◌, refl, ap, sym, ◌∙◌, inl, inr, arith, contains,
  if◌then◌else◌, ◌==◌, eq_iff, map, AllDifferent, Has, Bool-cases,
}
use forge_os.Artifacts.{Artifact, ArtifactDocument}
use forge_os.Artifacts.Registry.{on_last, append_dependent, add_edges, add_all_edges}

abbrev pub paths : ArtifactDocument → List String
paths = map (λ a. a.path)

-- the edge to `d` as the artifact `b` sees it, then the edges of one artifact, then all
abbrev pub edge : String → String → Artifact → Artifact
edge p d b = if b.path == d then append_dependent p b else b

unfoldable pub edges : String → List String → Artifact → Artifact
edges p [] b = b
edges p (d ∷ ds) b = edges p ds (edge p d b)

unfoldable pub all_edges : List Artifact → Artifact → Artifact
unfolding edges
all_edges [] b = b
all_edges (a ∷ rest) b = all_edges rest (edges a.path a.dependencies b)

pub map-map :
    (f g : Artifact → Artifact) (xs : List Artifact) → map f (map g xs) ≡ map (λ x. f (g x)) xs
map-map f g [] = refl
map-map f g (x ∷ xs) = ap (◌∷◌ (f (g x))) (map-map f g xs)

pub paths-map :
    (f : Artifact → Artifact)
    → ((b : Artifact) → (f b).path ≡ b.path)
    → (xs : List Artifact) → paths (map f xs) ≡ paths xs
paths-map f same [] = refl
paths-map f same (x ∷ xs) = λ i. same x i ∷ paths-map f same xs i

module _ (path : String) (f : Artifact → Artifact) where
  abbrev at_path : Artifact → Artifact
  at_path a = if a.path == path then f a else a

  map-absent : (xs : List Artifact) → contains (paths xs) path ≡ false → map at_path xs ≡ xs
  map-absent [] h = refl
  map-absent (x ∷ xs) h = ground (arith, h, map-absent xs)

  -- where paths are different, the last artifact with a path is the one with it
  on_last-map : (xs : List Artifact) → AllDifferent (paths xs) → on_last path f xs ≡ map at_path xs
  unfolding on_last
  on_last-map [] u = refl
  on_last-map (x ∷ xs) u = elim (Bool-cases (contains (paths xs) path)) [
    | inl e ↦ rw (e, differs e) (ap (◌∷◌ x) (on_last-map xs u.1))
    | inr e ↦ rw e (elim (Bool-cases (x.path == path)) [
      | inl q ↦ rw q (ap (◌∷◌ (f x)) (sym (map-absent xs e)))
      | inr q ↦ rw q (ap (◌∷◌ x) (sym (map-absent xs e)))
    ])
  ]
    where
      differs : contains (paths xs) path ≡ true → (x.path == path) ≡ false
      differs e = elim (Bool-cases (x.path == path)) [
        | inl q ↦ absurd (clash (ground (arith, eq_iff x.path path, q)))
        | inr q ↦ q
      ]
        where
          clash : x.path ≡ path → ⊥
          clash k = ground (arith, sym e ∙ ap (contains (paths xs)) (sym k) ∙ u.0)

pub edge-path : (p d : String) (b : Artifact) → (edge p d b).path ≡ b.path
edge-path p d b = ground arith

pub edges-path : (p : String) (ds : List String) (b : Artifact) → (edges p ds b).path ≡ b.path
unfolding edges
edges-path p [] b = refl
edges-path p (d ∷ ds) b = edges-path p ds (edge p d b) ∙ edge-path p d b

add_edges-map :
    (p : String) (ds : List String) (xs : ArtifactDocument)
    → AllDifferent (paths xs)
    → add_edges p ds xs ≡ map (edges p ds) xs
unfolding add_edges edges
add_edges-map p [] xs u = sym (map_same xs)
  where
    map_same : (l : List Artifact) → map (λ b. b) l ≡ l
    map_same [] = refl
    map_same (x ∷ l) = ap (◌∷◌ x) (map_same l)
add_edges-map p (d ∷ ds) xs u =
    ap (add_edges p ds) (on_last-map d (append_dependent p) xs u)
    ∙ add_edges-map p ds (map (edge p d) xs)
        (subst AllDifferent (sym (paths-map (edge p d) (edge-path p d) xs)) u)
    ∙ map-map (edges p ds) (edge p d) xs

pub add_all_edges-map :
    (items : List Artifact) (xs : ArtifactDocument)
    → AllDifferent (paths xs)
    → add_all_edges items xs ≡ map (all_edges items) xs
unfolding add_all_edges all_edges
add_all_edges-map [] xs u = sym (map_same xs)
  where
    map_same : (l : List Artifact) → map (λ b. b) l ≡ l
    map_same [] = refl
    map_same (x ∷ l) = ap (◌∷◌ x) (map_same l)
add_all_edges-map (a ∷ rest) xs u =
    ap (add_all_edges rest) (add_edges-map a.path a.dependencies xs u)
    ∙ add_all_edges-map rest (map (edges a.path a.dependencies) xs) (
        subst AllDifferent
          (sym (paths-map (edges a.path a.dependencies) (edges-path a.path a.dependencies) xs)) u)
    ∙ map-map (all_edges rest) (edges a.path a.dependencies) xs

-- An artifact of the list has the path `p` and names `path` as a dependency.
abbrev pub IsNamedBy : List Artifact → String → String → Type 0
IsNamedBy items path p = (a : Artifact) × Has a items × (a.path ≡ p) × Has path a.dependencies
