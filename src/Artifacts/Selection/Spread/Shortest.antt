-- ===== src/Artifacts/Selection/Spread/Shortest.antt =====
-- The visits end on every graph, and the priorities are the shortest distances.
use mathlib.Core.Path.{subst}
use forge_os.Base.{
  ℕ, zero, suc, ◌<◌, String, false, Option, none, some, List, [], ◌∷◌, ◌++◌, ◌≡◌, refl, ap, sym,
  ◌∙◌, inl, inr, arith, ◌==◌, All, Has, All-mono, All-has, All-of_Has, Has-append, Has-snoc,
  Bool-cases,
}
use forge_os.Base.Dict.{Dict, lookup, insert}
use forge_os.Base.Sort.{sorted, All-sorted, Has-sorted}
use forge_os.Base.Text.{str_leb}
use forge_os.Artifacts.{Artifact}
use forge_os.Artifacts.Rework.Marking.{unseen, unseen-lt}
use forge_os.Artifacts.Rework.Affected.{unseen-bound}
use forge_os.Artifacts.Selection.{by_path}
use forge_os.Artifacts.Selection.Spread.{
  is_settled, visit_all, visit_dependencies, visit, stage_paths, all_dependencies, depth,
  spread_activation_priorities,
}
use forge_os.Artifacts.Selection.Spread.Distance.{
  Walk, at_source, along, Reached, IsDistance, IsLowered, IsLowered-refl, IsLowered-trans,
  IsLowered-mono, IsLowered-insert, lookup-insert_self,
}
use forge_os.Artifacts.Selection.Spread.Visits.{
  IsSound, IsClosed, IsVisiting, IsVisited, Ends, visit_all-Ends, visit-settled, visit-new,
  IsVisited-settled, not_stacked, IsVisiting-enter,
}

module _ (artifacts : Dict Artifact) (sources : List String) where
  -- the path leaves the stack, with its dependencies at most one further
  IsVisited-leave :
      (stack : List String) (path : String) (n : ℕ) (d e : Dict ℕ)
      → is_settled (lookup path d) n ≡ false
      → IsLowered (suc n) (insert path n d) e
      → IsSound artifacts sources e
      → IsClosed artifacts sources (stack ++ path ∷ []) e
      → ((a : Artifact) (x : String)
          → lookup path artifacts ≡ some a
          → Has x a.dependencies
          → Reached e x (suc n))
      → IsVisited artifacts sources stack (path ∷ []) n d e
  IsVisited-leave stack path n d e new lowered sound closed own = record {
    lowered =
        IsLowered-trans n d (insert path n d) e (IsLowered-insert d path n new)
          (IsLowered-mono n (suc n) (insert path n d) e (omega arith) lowered);
    sound = sound;
    closed = λ p m a x q r has. elim (closed p m a x q r has) [
      | inl k ↦ elim (Has-snoc p path stack k) [
        | inl old ↦ inl old
        | inr same ↦ inr (at_path p m a x same q r has)
      ]
      | inr r' ↦ inr r'
    ];
    reached = ((n, here, omega arith), tt);
  }
    where
      here : lookup path e ≡ some n
      here = lowered.kept path n (lookup-insert_self d path n) (omega arith)

      at_path :
          (p : String) (m : ℕ) (a : Artifact) (x : String)
          → path ≡ p
          → lookup p e ≡ some m
          → lookup p artifacts ≡ some a
          → Has x a.dependencies
          → Reached e x (suc m)
      at_path p m a x same q r has =
          let level : n ≡ m = ground (arith, here, q, ap (λ z. lookup z e) same) in
          subst (λ k. Reached e x (suc k)) level
            (own a x (ap (λ z. lookup z artifacts) same ∙ r) has)

  module _ (universe : List String)
      (listed : (path : String) (a : Artifact)
        → lookup path artifacts ≡ some a
        → All (λ x. Has x universe) a.dependencies) where
    -- With more fuel than there are paths off the stack, a visit ends.
    visit-Ends :
        (fuel : ℕ) (stack : List String) (path : String) (n : ℕ)
        → unseen universe stack < fuel
        → Has path universe
        → Walk artifacts sources path n
        → (d : Dict ℕ) → IsVisiting artifacts sources stack n d
        → Ends artifacts sources stack (path ∷ []) n d (visit fuel artifacts path n d)
    unfolding visit_dependencies
    visit-Ends zero stack path n h m w d v = absurd (omega (arith, h))
    visit-Ends (suc fuel) stack path n h m w d v =
        elim (Bool-cases (is_settled (lookup path d) n)) [
          | inl old ↦ (
            d,
            visit-settled artifacts sources fuel path n d old,
            IsVisited-settled artifacts sources stack path n d old v,
          )
          | inr new ↦
              let (e, q, r) =
                enter new (lookup path artifacts) refl
                  (λ k x b. visit-Ends fuel (stack ++ path ∷ []) x (suc n) k b) in
              (e, visit-new artifacts sources fuel path n d new ∙ q, r)
        ]
      where
        entered :
            is_settled (lookup path d) n ≡ false
            → IsVisiting artifacts sources (stack ++ path ∷ []) (suc n) (insert path n d)
        entered new = IsVisiting-enter artifacts sources stack path n d new w v

        smaller : is_settled (lookup path d) n ≡ false → unseen universe (stack ++ path ∷ []) < fuel
        smaller new = omega (
          arith,
          h,
          unseen-lt universe stack path m
              (not_stacked artifacts sources stack path n d new v.below),
        )

        same : (a b : Artifact) → some a ≡ some b → b ≡ a
        same a b q = ground (arith, q)

        enter :
            (new : is_settled (lookup path d) n ≡ false) (o : Option Artifact)
            → lookup path artifacts ≡ o
            → (unseen universe (stack ++ path ∷ []) < fuel
                → (x : String) → Has x universe
                → Walk artifacts sources x (suc n)
                → (c : Dict ℕ) → IsVisiting artifacts sources (stack ++ path ∷ []) (suc n) c
                → Ends artifacts sources
                    (stack ++ path ∷ [])
                    (x ∷ [])
                    (suc n)
                    c
                    (visit fuel artifacts x (suc n) c))
            → Ends artifacts sources stack
                (path ∷ [])
                n
                d
                (visit_dependencies (λ x. visit fuel artifacts x (suc n)) o (insert path n d))
        enter new none e again = (
          insert path n d,
          refl,
          IsVisited-leave stack path n d (insert path n d) new
              (IsLowered-refl (suc n) (insert path n d)) (entered new).sound (entered new).closed
              (λ a x q k. absurd (ground (arith, e, q))),
        )
        enter new (some a) e again =
            let (g, q, r) =
              visit_all-Ends artifacts sources (λ x. visit fuel artifacts x (suc n))
                (stack ++ path ∷ []) (suc n) (sorted str_leb a.dependencies)
                (All-sorted
                  (λ x.
                    (c : Dict ℕ)
                    → IsVisiting artifacts sources (stack ++ path ∷ []) (suc n) c
                    → Ends artifacts sources (stack ++ path ∷ []) (x ∷ []) (suc n) c
                        (visit fuel artifacts x (suc n) c))
                  str_leb a.dependencies
                  (All-of_Has _ a.dependencies (λ x k.
                    again (smaller new) x
                      (All-has (λ z. Has z universe) x a.dependencies (listed path a e) k)
                      (along path n a x w e k))))
                (insert path n d) (entered new) in
            (
              g,
              q,
              IsVisited-leave stack path n d g new r.lowered r.sound r.closed (λ b x q' k.
                  All-has (λ z. Reached g z (suc n)) x (sorted str_leb a.dependencies) r.reached
                    (Has-sorted str_leb x a.dependencies
                      (subst (λ z. Has x z.dependencies) (same a b (sym e ∙ q')) k))),
            )

all_dependencies-lookup :
    (artifacts : Dict Artifact) (path : String) (a : Artifact)
    → lookup path artifacts ≡ some a
    → All (λ x. Has x (all_dependencies artifacts)) a.dependencies
unfolding lookup
all_dependencies-lookup [] path a h = absurd (ground (arith, h))
all_dependencies-lookup ((j, b) ∷ rest) path a h = elim (Bool-cases (j == path)) [
  | inl e ↦
      subst (λ z. All (λ x. Has x (b.dependencies ++ all_dependencies rest)) z.dependencies)
        (first b a (ground (arith, e, h)))
        (All-of_Has _ b.dependencies
          (λ x k. Has-append x b.dependencies (all_dependencies rest) (inl k)))
  | inr e ↦
      All-mono (λ x. Has x (all_dependencies rest))
        (λ x. Has x (b.dependencies ++ all_dependencies rest))
        (λ x k. Has-append x b.dependencies (all_dependencies rest) (inr k)) a.dependencies
        (all_dependencies-lookup rest path a (ground (arith, e, h)))
]
  where
    first : (c d : Artifact) → some c ≡ some d → c ≡ d
    first c d q = ground (arith, q)

module _ (artifacts : Dict Artifact) (sources : List String) where
  IsDistance-closed :
      (d : Dict ℕ) → IsVisited artifacts sources [] sources 0 [] d → IsDistance artifacts sources d
  IsDistance-closed d v path n = (v.sound path n, λ w. short path n w)
    where
      short : (p : String) (m : ℕ) → Walk artifacts sources p m → Reached d p m
      short p m (at_source _ k) = All-has (λ q. Reached d q 0) p sources v.reached k
      short x m (along p k a _ w q has) =
          let (l, e, le) = short p k w in
          elim (v.closed p l a x e q has) [
            | inl none_stacked ↦ absurd none_stacked
            | inr r ↦ (r.0, r.1, omega (arith, r.2, le))
          ]

  universe : List String
  universe = sources ++ all_dependencies artifacts

  sources_first : All (λ x. Has x universe) sources
  unfolding universe
  sources_first =
      All-of_Has _ sources (λ x k. Has-append x sources (all_dependencies artifacts) (inl k))

  universe-listed :
      (path : String) (a : Artifact)
      → lookup path artifacts ≡ some a
      → All (λ x. Has x universe) a.dependencies
  unfolding universe
  universe-listed path a h =
      All-mono (λ x. Has x (all_dependencies artifacts))
        (λ x. Has x (sources ++ all_dependencies artifacts))
        (λ x k. Has-append x sources (all_dependencies artifacts) (inr k)) a.dependencies
        (all_dependencies-lookup artifacts path a h)

  visits_end :
      Ends artifacts sources [] sources 0 []
        (visit_all (λ path. visit (depth sources artifacts) artifacts path 0) sources [])
  unfolding depth universe lookup
  visits_end =
      visit_all-Ends artifacts sources (λ path. visit (depth sources artifacts) artifacts path 0) []
        0 sources
        (All-of_Has _ sources (λ path k.
          visit-Ends artifacts sources universe universe-listed (depth sources artifacts) [] path 0
            (omega (arith, unseen-bound (sources ++ all_dependencies artifacts) []))
            (All-has (λ x. Has x universe) path sources sources_first k) (at_source path k)))
        []
        (record {
          sound = λ p m e. absurd (ground (arith, e));
          closed = λ p m a x e q has. absurd (ground (arith, e));
          below = tt;
        })

-- The visits end, on dependencies with cycles too, and an artifact's priority is the length of a
-- shortest walk to it along the dependencies from the artifacts of the stage (from all of them, if
-- the stage has none); an artifact has no priority exactly when there is no such walk.
pub spread_activation_priorities-IsDistance :
    (stage_id : String) (artifacts : List Artifact)
    → (d : Dict ℕ) × (spread_activation_priorities stage_id artifacts ≡ some d)
      × IsDistance (by_path artifacts []) (stage_paths stage_id artifacts) d
unfolding spread_activation_priorities
spread_activation_priorities-IsDistance stage_id artifacts =
    let (d, e, v) = visits_end (by_path artifacts []) (stage_paths stage_id artifacts) in
    (d, e, IsDistance-closed (by_path artifacts []) (stage_paths stage_id artifacts) d v)
