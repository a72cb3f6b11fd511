-- ===== src/Artifacts/Selection/Spread/Visits.antt =====
-- What one visit leaves: priorities that are walks, and closed but for the paths still being visited.
use mathlib.Core.Path.{subst}
use forge_os.Base.{
  ℕ, suc, String, true, false, Option, none, some, List, [], ◌∷◌, ◌++◌, ◌≡◌, refl, ap, sym, ◌∙◌,
  ◌⊎◌, inl, inr, arith, contains, ◌==◌, eq_iff, All, Has, All-append, All-mono, All-has, Has-append,
  Bool-cases,
}
use forge_os.Base.Dict.{Dict, lookup, insert}
use forge_os.Artifacts.{Artifact}
use forge_os.Artifacts.Rework.Marking.{contains-Has}
use forge_os.Artifacts.Selection.Spread.{is_settled, visit_all, visit_dependencies, visit}
use forge_os.Artifacts.Selection.Spread.Distance.{
  Walk, Reached, IsLowered, IsLowered-refl, IsLowered-trans, IsLowered-insert, settled-Reached,
  unsettled-Reached, lookup-insert_self, lookup-insert_other,
}

module _ (artifacts : Dict Artifact) (sources : List String) where
  -- every priority is the length of a walk
  abbrev pub IsSound : Dict ℕ → Type 0
  IsSound d = (path : String) (n : ℕ) → lookup path d ≡ some n → Walk artifacts sources path n

  -- a dependency of a path is at most one further, but for the paths of the stack
  abbrev pub IsClosed : List String → Dict ℕ → Type 0
  IsClosed stack d =
      (path : String) (m : ℕ) (a : Artifact) (x : String)
      → lookup path d ≡ some m
      → lookup path artifacts ≡ some a
      → Has x a.dependencies
      → Has path stack ⊎ Reached d x (suc m)

  -- what holds while the stack is visited for the priority `n`
  pub record IsVisiting (stack : List String) (n : ℕ) (d : Dict ℕ) : Type 0 where
    pub sound : IsSound d
    pub closed : IsClosed stack d
    pub below : All (λ p. Reached d p n) stack

  -- what a visit of the paths for the priority `n` leaves
  pub record IsVisited (stack paths : List String) (n : ℕ) (d e : Dict ℕ) : Type 0 where
    pub lowered : IsLowered n d e
    pub sound : IsSound e
    pub closed : IsClosed stack e
    pub reached : All (λ p. Reached e p n) paths

  -- a visit that ends
  abbrev pub Ends : List String → List String → ℕ → Dict ℕ → Option (Dict ℕ) → Type 0
  Ends stack paths n d result = (e : Dict ℕ) × (result ≡ some e) × IsVisited stack paths n d e

  IsVisiting-next :
      (stack paths : List String) (n : ℕ) (d e : Dict ℕ)
      → IsVisiting stack n d
      → IsVisited stack paths n d e
      → IsVisiting stack n e
  IsVisiting-next stack paths n d e v r = record {
    sound = r.sound;
    closed = r.closed;
    below =
        All-mono (λ p. Reached d p n) (λ p. Reached e p n) (λ p. r.lowered.lower p n) stack v.below;
  }

  module _ (f : String → Dict ℕ → Option (Dict ℕ)) (stack : List String) (n : ℕ) where
    -- the loop, where each visit ends
    pub visit_all-Ends :
        (xs : List String)
        → All (λ x. (d : Dict ℕ) → IsVisiting stack n d → Ends stack (x ∷ []) n d (f x d)) xs
        → (d : Dict ℕ) → IsVisiting stack n d
        → Ends stack xs n d (visit_all f xs d)
    unfolding visit_all
    visit_all-Ends [] h d v = (
      d,
      refl,
      record { lowered = IsLowered-refl n d; sound = v.sound; closed = v.closed; reached = tt },
    )
    visit_all-Ends (x ∷ xs) h d v =
        let (e, q, r) = h.0 d v in
        let (g, q', r') = visit_all-Ends xs h.1 e (IsVisiting-next stack (x ∷ []) n d e v r) in
        (
          g,
          ap (λ (o : Option (Dict ℕ)). elim o [ none ↦ none | some next ↦ visit_all f xs next ]) q
              ∙ q',
          record {
            lowered = IsLowered-trans n d e g r.lowered r'.lowered;
            sound = r'.sound;
            closed = r'.closed;
            reached = (r'.lowered.lower x n r.reached.0, r'.reached);
          },
        )

  pub visit-settled :
      (fuel : ℕ) (path : String) (n : ℕ) (d : Dict ℕ)
      → is_settled (lookup path d) n ≡ true
      → visit (suc fuel) artifacts path n d ≡ some d
  unfolding visit
  visit-settled fuel path n d h = rw h refl

  pub visit-new :
      (fuel : ℕ) (path : String) (n : ℕ) (d : Dict ℕ)
      → is_settled (lookup path d) n ≡ false
      → visit (suc fuel) artifacts path n d
        ≡ visit_dependencies
            (λ x. visit fuel artifacts x (suc n))
            (lookup path artifacts)
            (insert path n d)
  unfolding visit
  visit-new fuel path n d h = rw h refl

  pub IsVisited-settled :
      (stack : List String) (path : String) (n : ℕ) (d : Dict ℕ)
      → is_settled (lookup path d) n ≡ true
      → IsVisiting stack n d
      → IsVisited stack (path ∷ []) n d d
  IsVisited-settled stack path n d h v = record {
    lowered = IsLowered-refl n d;
    sound = v.sound;
    closed = v.closed;
    reached = (settled-Reached d path n h, tt);
  }

  -- a path that is new at this priority is not on the stack
  pub not_stacked :
      (stack : List String) (path : String) (n : ℕ) (d : Dict ℕ)
      → is_settled (lookup path d) n ≡ false
      → All (λ p. Reached d p n) stack
      → contains stack path ≡ false
  not_stacked stack path n d h below = elim (Bool-cases (contains stack path)) [
    | inl e ↦ absurd (
        omega (
          arith,
          unsettled-Reached d path n n h
              (All-has (λ p. Reached d p n) path stack below (contains-Has stack path e)),
        ))
    | inr e ↦ e
  ]

  module _ (stack : List String) (path : String) (n : ℕ) (d : Dict ℕ)
      (new : is_settled (lookup path d) n ≡ false) where
    -- the path gets its priority and goes on the stack
    pub IsVisiting-enter :
        Walk artifacts sources path n
        → IsVisiting stack n d
        → IsVisiting (stack ++ path ∷ []) (suc n) (insert path n d)
    IsVisiting-enter w v = record {
      sound = λ p m e. elim (Bool-cases (path == p)) [
        | inl t ↦ found p m t e
        | inr t ↦ v.sound p m (sym (lookup-insert_other d path p n t) ∙ e)
      ];
      closed = λ p m a x e q has. elim (Bool-cases (path == p)) [
        | inl t ↦
            inl (Has-append p stack (path ∷ []) (inr (inl (ground (arith, eq_iff path p, t)))))
        | inr t ↦ moved p m x (v.closed p m a x (sym (lookup-insert_other d path p n t) ∙ e) q has)
      ];
      below =
          All-append (λ p. Reached (insert path n d) p (suc n)) stack (path ∷ [])
            (All-mono (λ p. Reached d p n) (λ p. Reached (insert path n d) p (suc n))
              (λ p r. let s = put.lower p n r in (s.0, s.1, omega (arith, s.2))) stack v.below)
            ((n, lookup-insert_self d path n, omega arith), tt);
    }
      where
        put : IsLowered n d (insert path n d)
        put = IsLowered-insert d path n new

        found :
            (p : String) (m : ℕ)
            → (path == p) ≡ true
            → lookup p (insert path n d) ≡ some m
            → Walk artifacts sources p m
        found p m t e =
            let same : path ≡ p = ground (arith, eq_iff path p, t) in
            let level : n ≡ m =
              ground (
                arith,
                lookup-insert_self d path n,
                e,
                ap (λ z. lookup z (insert path n d)) same,
              ) in
            subst (λ z. Walk artifacts sources z m) same
              (subst (λ k. Walk artifacts sources path k) level w)

        moved :
            (p : String) (m : ℕ) (x : String)
            → Has p stack ⊎ Reached d x (suc m)
            → Has p (stack ++ path ∷ []) ⊎ Reached (insert path n d) x (suc m)
        moved p m x (inl h) = inl (Has-append p stack (path ∷ []) (inl h))
        moved p m x (inr r) = inr (put.lower x (suc m) r)
