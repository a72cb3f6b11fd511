-- ===== src/Artifacts/Registry/Adding.antt =====
-- What the edges that are added one by one do to the dependents of an artifact.
use mathlib.Core.Path.{subst}
use forge_os.Base.{
  String, List, [], ◌∷◌, ◌≡◌, refl, ap, sym, ◌∙◌, ◌⊎◌, inl, inr, arith, contains, ◌==◌, eq_iff,
  eq_refl, Has, Has-append, Has-snoc, Bool-cases,
}
use forge_os.Artifacts.{Artifact}
use forge_os.Artifacts.Rework.Marking.{contains-Has}
use forge_os.Artifacts.Registry.{append_dependent}
use forge_os.Artifacts.Registry.Dual.{edge, edges, all_edges, edges-path, edge-path, IsNamedBy}

edge-dependencies : (p d : String) (b : Artifact) → (edge p d b).dependencies ≡ b.dependencies
edge-dependencies p d b = ground arith

edges-dependencies :
    (p : String) (ds : List String) (b : Artifact) → (edges p ds b).dependencies ≡ b.dependencies
unfolding edges
edges-dependencies p [] b = refl
edges-dependencies p (d ∷ ds) b = edges-dependencies p ds (edge p d b) ∙ edge-dependencies p d b

pub all_edges-path : (items : List Artifact) (b : Artifact) → (all_edges items b).path ≡ b.path
unfolding all_edges
all_edges-path [] b = refl
all_edges-path (a ∷ rest) b =
    all_edges-path rest (edges a.path a.dependencies b) ∙ edges-path a.path a.dependencies b

pub all_edges-dependencies :
    (items : List Artifact) (b : Artifact) → (all_edges items b).dependencies ≡ b.dependencies
unfolding all_edges
all_edges-dependencies [] b = refl
all_edges-dependencies (a ∷ rest) b =
    all_edges-dependencies rest (edges a.path a.dependencies b)
    ∙ edges-dependencies a.path a.dependencies b

module _ (q : String) where
  append_dependent-old :
      (p : String) (b : Artifact) → Has q b.dependents → Has q (append_dependent p b).dependents
  append_dependent-old p b m = elim (Bool-cases (contains b.dependents p)) [
    | inl e ↦ rw e m
    | inr e ↦ rw e (Has-append q b.dependents (p ∷ []) (inl m))
  ]

  append_dependent-new : (b : Artifact) → Has q (append_dependent q b).dependents
  append_dependent-new b = elim (Bool-cases (contains b.dependents q)) [
    | inl e ↦ rw e (contains-Has b.dependents q e)
    | inr e ↦ rw e (Has-append q b.dependents (q ∷ []) (inr (inl refl)))
  ]

  append_dependent-only :
      (p : String) (b : Artifact)
      → Has q (append_dependent p b).dependents
      → Has q b.dependents ⊎ (p ≡ q)
  append_dependent-only p b = elim (Bool-cases (contains b.dependents p)) [
    | inl e ↦ rw e (λ m. inl m)
    | inr e ↦ rw e (λ m. Has-snoc q p b.dependents m)
  ]

  edge-old : (p d : String) (b : Artifact) → Has q b.dependents → Has q (edge p d b).dependents
  edge-old p d b m = elim (Bool-cases (b.path == d)) [
    | inl e ↦ rw e (append_dependent-old p b m)
    | inr e ↦ rw e m
  ]

  edge-new : (d : String) (b : Artifact) → d ≡ b.path → Has q (edge q d b).dependents
  edge-new d b h = rw (h, eq_refl b.path) (append_dependent-new b)

  edge-only :
      (p d : String) (b : Artifact)
      → Has q (edge p d b).dependents
      → Has q b.dependents ⊎ ((p ≡ q) × (d ≡ b.path))
  edge-only p d b = elim (Bool-cases (b.path == d)) [
    | inl e ↦ rw e (λ m. elim (append_dependent-only p b m) [
      | inl k ↦ inl k
      | inr h ↦ inr (h, ground (arith, eq_iff b.path d, e))
    ])
    | inr e ↦ rw e (λ m. inl m)
  ]

  edges-old :
      (p : String) (ds : List String) (b : Artifact)
      → Has q b.dependents
      → Has q (edges p ds b).dependents
  unfolding edges
  edges-old p [] b m = m
  edges-old p (d ∷ ds) b m = edges-old p ds (edge p d b) (edge-old p d b m)

  edges-new : (ds : List String) (b : Artifact) → Has b.path ds → Has q (edges q ds b).dependents
  unfolding edges
  edges-new [] b m = absurd m
  edges-new (d ∷ ds) b (inl e) = edges-old q ds (edge q d b) (edge-new d b e)
  edges-new (d ∷ ds) b (inr m) =
      edges-new ds (edge q d b) (subst (λ z. Has z ds) (sym (edge-path q d b)) m)

  edges-only :
      (p : String) (ds : List String) (b : Artifact)
      → Has q (edges p ds b).dependents
      → Has q b.dependents ⊎ ((p ≡ q) × Has b.path ds)
  unfolding edges
  edges-only p [] b m = inl m
  edges-only p (d ∷ ds) b m = elim (edges-only p ds (edge p d b) m) [
    | inl k ↦ elim (edge-only p d b k) [ inl old ↦ inl old | inr (e, h) ↦ inr (e, inl h) ]
    | inr (e, k) ↦ inr (e, inr (subst (λ z. Has z ds) (edge-path p d b) k))
  ]

  pub all_edges-old :
      (items : List Artifact) (b : Artifact)
      → Has q b.dependents
      → Has q (all_edges items b).dependents
  unfolding all_edges
  all_edges-old [] b m = m
  all_edges-old (a ∷ rest) b m =
      all_edges-old rest (edges a.path a.dependencies b) (edges-old a.path a.dependencies b m)

  pub all_edges-new :
      (items : List Artifact) (b : Artifact)
      → IsNamedBy items b.path q
      → Has q (all_edges items b).dependents
  unfolding all_edges
  all_edges-new [] b (a, m, e, h) = absurd m
  all_edges-new (x ∷ rest) b (a, inl k, e, h) = all_edges-old rest (edges x.path x.dependencies b) (
      subst (λ z. Has q (edges z x.dependencies b).dependents)
        (sym (ap (λ (z : Artifact). z.path) k ∙ e))
        (edges-new x.dependencies b (subst (λ z. Has b.path z.dependencies) (sym k) h)))
  all_edges-new (x ∷ rest) b (a, inr m, e, h) =
      all_edges-new rest (edges x.path x.dependencies b)
        (a, m, e, subst (λ z. Has z a.dependencies) (sym (edges-path x.path x.dependencies b)) h)

  pub all_edges-only :
      (items : List Artifact) (b : Artifact)
      → Has q (all_edges items b).dependents
      → Has q b.dependents ⊎ IsNamedBy items b.path q
  unfolding all_edges
  all_edges-only [] b m = inl m
  all_edges-only (x ∷ rest) b m = elim (all_edges-only rest (edges x.path x.dependencies b) m) [
    | inl k ↦ elim (edges-only x.path x.dependencies b k) [
      | inl old ↦ inl old
      | inr (e, h) ↦ inr (x, inl refl, e, h)
    ]
    | inr (a, k, e, h) ↦
        inr (a, inr k, e, subst (λ z. Has z a.dependencies) (edges-path x.path x.dependencies b) h)
  ]
