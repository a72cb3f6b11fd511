-- ===== src/Artifacts/Registry/Edges.antt =====
-- The invariant of the stored document: dependents are the reverse of the dependencies.
use mathlib.Core.Path.{subst}
use forge_os.Base.{
  String, List, [], ◌∷◌, ◌≡◌, refl, ap, sym, ◌∙◌, inl, inr, map, AllDifferent, Has, All-has,
  All-of_Has,
}
use forge_os.Base.Sort.{sorted, All-sorted, Has-sorted}
use forge_os.Base.Text.{str_leb}
use forge_os.Artifacts.{Artifact, ArtifactDocument}
use forge_os.Artifacts.Registry.{clear_dependents, sort_dependents, rebuild_dependents}
use forge_os.Artifacts.Registry.Dual.{
  paths, all_edges, paths-map, map-map, add_all_edges-map, IsNamedBy,
}
use forge_os.Artifacts.Registry.Adding.{
  all_edges-path, all_edges-dependencies, all_edges-new, all_edges-only,
}

-- The dependents of every artifact are exactly the paths of those that name it as a dependency.
abbrev pub IsDual : ArtifactDocument → Type 0
IsDual document =
    (b : Artifact)
    → Has b document
    → (q : String)
    → (Has q b.dependents → IsNamedBy document b.path q)
      × (IsNamedBy document b.path q → Has q b.dependents)

Has-map :
    (f : Artifact → Artifact) (a : Artifact) (xs : List Artifact) → Has a xs → Has (f a) (map f xs)
Has-map f a [] m = absurd m
Has-map f a (x ∷ xs) (inl e) = inl (ap f e)
Has-map f a (x ∷ xs) (inr m) = inr (Has-map f a xs m)

Has-of_map :
    (f : Artifact → Artifact) (b : Artifact) (xs : List Artifact)
    → Has b (map f xs)
    → (a : Artifact) × Has a xs × (f a ≡ b)
Has-of_map f b [] m = absurd m
Has-of_map f b (x ∷ xs) (inl e) = (x, inl refl, e)
Has-of_map f b (x ∷ xs) (inr m) = let (a, k, e) = Has-of_map f b xs m in (a, inr k, e)

rebuilt : ArtifactDocument → Artifact → Artifact
rebuilt document a = sort_dependents (all_edges document (clear_dependents a))

rebuild_dependents-map :
    (document : ArtifactDocument)
    → AllDifferent (paths document)
    → rebuild_dependents document ≡ map (rebuilt document) document
unfolding rebuild_dependents rebuilt
rebuild_dependents-map document u =
    ap (map sort_dependents) (
      add_all_edges-map document (map clear_dependents document)
        (subst AllDifferent (sym (paths-map clear_dependents (λ b. refl) document)) u)
      ∙ map-map (all_edges document) clear_dependents document)
    ∙ map-map sort_dependents (λ a. all_edges document (clear_dependents a)) document

rebuilt-path : (document : ArtifactDocument) (a : Artifact) → (rebuilt document a).path ≡ a.path
unfolding rebuilt
rebuilt-path document a = all_edges-path document (clear_dependents a)

rebuilt-dependencies :
    (document : ArtifactDocument) (a : Artifact)
    → (rebuilt document a).dependencies ≡ a.dependencies
unfolding rebuilt
rebuilt-dependencies document a = all_edges-dependencies document (clear_dependents a)

rebuilt-only :
    (document : ArtifactDocument) (a : Artifact) (q : String)
    → Has q (rebuilt document a).dependents
    → IsNamedBy document a.path q
unfolding rebuilt
rebuilt-only document a q m =
    let found : List String = (all_edges document (clear_dependents a)).dependents in
    let k : Has q found =
      All-has (λ z. Has z found) q (sorted str_leb found)
        (All-sorted (λ z. Has z found) str_leb found
          (All-of_Has (λ z. Has z found) found (λ z h. h)))
        m in
    elim (all_edges-only q document (clear_dependents a) k) [ inl old ↦ absurd old | inr n ↦ n ]

rebuilt-new :
    (document : ArtifactDocument) (a : Artifact) (q : String)
    → IsNamedBy document a.path q
    → Has q (rebuilt document a).dependents
unfolding rebuilt
rebuilt-new document a q n =
    Has-sorted str_leb q (all_edges document (clear_dependents a)).dependents
      (all_edges-new q document (clear_dependents a) n)

-- Rebuilding keeps the paths, and in a document of different paths it makes the dependents of every
-- artifact the paths of exactly those artifacts that name it as a dependency.
pub rebuild_dependents-IsDual :
    (document : ArtifactDocument)
    → AllDifferent (paths document)
    → (paths (rebuild_dependents document) ≡ paths document) × IsDual (rebuild_dependents document)
rebuild_dependents-IsDual document u = (
  ap paths (rebuild_dependents-map document u)
      ∙ paths-map (rebuilt document) (rebuilt-path document) document,
  subst IsDual (sym (rebuild_dependents-map document u)) (λ b m q.
      let (a, k, e) = Has-of_map (rebuilt document) b document m in
      (λ h. forward a b q k e h, λ n. backward a b q k e n)),
)
  where
    new : List Artifact
    new = map (rebuilt document) document

    forward :
        (a b : Artifact) (q : String)
        → Has a document
        → rebuilt document a ≡ b
        → Has q b.dependents
        → IsNamedBy new b.path q
    forward a b q k e h =
        let (y, m, p, d) =
          rebuilt-only document a q (subst (λ (z : Artifact). Has q z.dependents) (sym e) h) in
        (
          rebuilt document y,
          Has-map (rebuilt document) y document m,
          rebuilt-path document y ∙ p,
          subst (λ z. Has b.path z) (sym (rebuilt-dependencies document y))
              (subst (λ z. Has z y.dependencies)
                (sym (rebuilt-path document a) ∙ ap (λ (z : Artifact). z.path) e) d),
        )

    backward :
        (a b : Artifact) (q : String)
        → Has a document
        → rebuilt document a ≡ b
        → IsNamedBy new b.path q
        → Has q b.dependents
    backward a b q k e (x, m, p, d) =
        let (y, m', e') = Has-of_map (rebuilt document) x document m in
        subst (λ (z : Artifact). Has q z.dependents) e
          (rebuilt-new document a q (
            y,
            m',
            sym (rebuilt-path document y) ∙ ap (λ (z : Artifact). z.path) e' ∙ p,
            subst (λ z. Has z y.dependencies)
                (ap (λ (z : Artifact). z.path) (sym e) ∙ rebuilt-path document a)
                (subst (λ z. Has b.path z)
                  (ap (λ (z : Artifact). z.dependencies) (sym e') ∙ rebuilt-dependencies document y)
                  d),
          ))
