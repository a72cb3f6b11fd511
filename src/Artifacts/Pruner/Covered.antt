-- ===== src/Artifacts/Pruner/Covered.antt =====
-- Every artifact that has a priority is selected or reported as omitted.
use mathlib.Core.Path.{subst}
use forge_os.Base.{
  ℕ, ◌+◌, String, Bool, true, false, not, List, [], ◌∷◌, ◌++◌, ◌≡◌, refl, ap, ◌⊎◌, inl, inr, map,
  filter, if◌then◌else◌, ltb, Has, Has-filter, Bool-cases,
}
use forge_os.Base.Dict.{Dict, lookup}
use forge_os.Base.Sort.{sorted, Has-sorted}
use forge_os.Host.{Host, Attempt, value, error}
use forge_os.Artifacts.{Artifact, ArtifactDocument, fresh, status_eq}
use forge_os.Artifacts.Selection.{
  Omission, SelectedContextItem, OmittedItem, Picked, ContextSelection, by_path, select, pick,
  pick_all, omit, select_item, priority_of, is_some, candidate_leb, nothing_picked, artifact_status,
  token_budget_exceeded,
}
use forge_os.Artifacts.Selection.Budget.{IfValue}

-- the path stands among the selected items or among the omitted ones
abbrev pub IsListed : String → Picked → Type 0
IsListed path picked =
    Has path (map (λ (i : SelectedContextItem). i.path) picked.selected)
    ⊎ Has path (map (λ (o : OmittedItem). o.path) picked.omitted)

Has-map_append :
    {A : Type 0} (f : A → String) (x : String) (xs ys : List A)
    → Has x (map f xs) ⊎ Has x (map f ys)
    → Has x (map f (xs ++ ys))
Has-map_append f x [] ys (inl m) = absurd m
Has-map_append f x [] ys (inr m) = m
Has-map_append f x (z ∷ xs) ys (inl (inl e)) = inl e
Has-map_append f x (z ∷ xs) ys (inl (inr m)) = inr (Has-map_append f x xs ys (inl m))
Has-map_append f x (z ∷ xs) ys (inr m) = inr (Has-map_append f x xs ys (inr m))

module _ (host : Host) (stage_id : String) (budget : ℕ) (priorities : Dict ℕ) where
  -- what is listed stays so, and the artifact is listed
  abbrev Lists : Artifact → Picked → Picked → Type 0
  Lists a picked next =
      ((path : String) → IsListed path picked → IsListed path next) × IsListed a.path next

  omit-Lists : (a : Artifact) (r : Omission) (picked : Picked) → Lists a picked (omit a r picked)
  unfolding omit
  omit-Lists a r picked = (
    λ path m. elim m [
      | inl k ↦ inl k
      | inr k ↦ inr (Has-map_append (λ (o : OmittedItem). o.path) path picked.omitted _ (inl k))
    ],
    inr (Has-map_append (λ (o : OmittedItem). o.path) a.path picked.omitted _ (inr (inl refl))),
  )

  select_item-Lists :
      (n : ℕ) (content : String) (a : Artifact) (picked : Picked)
      → Lists a picked (select_item stage_id n content a picked)
  unfolding select_item
  select_item-Lists n content a picked = (
    λ path m. elim m [
      | inl k ↦
          inl (Has-map_append (λ (i : SelectedContextItem). i.path) path picked.selected _ (inl k))
      | inr k ↦ inr k
    ],
    inl (
        Has-map_append (λ (i : SelectedContextItem). i.path) a.path picked.selected _
          (inr (inl refl))),
  )

  pick-Lists :
      (a : Artifact) (picked : Picked)
      → IfValue (Lists a picked) (pick host stage_id budget priorities a picked)
  unfolding pick
  pick-Lists a picked =
      go (status_eq a.status fresh) (ltb budget (picked.total_tokens + a.token_estimate))
        (host.read_text a.path)
    where
      go :
          (f b : Bool) (r : Attempt String)
          → IfValue (Lists a picked) (
              if not f
              then value (omit a (artifact_status a.status) picked)
              else if b
              then value (omit a token_budget_exceeded picked)
              else (elim r [
                | value content ↦
                    value (select_item stage_id (priority_of priorities a) content a picked)
                | error message ↦ error message
              ]))
      go false b r = omit-Lists a (artifact_status a.status) picked
      go true true r = omit-Lists a token_budget_exceeded picked
      go true false (value content) = select_item-Lists (priority_of priorities a) content a picked
      go true false (error message) = tt

  -- what is listed stays so, and every candidate is listed
  abbrev ListAll : List Artifact → Picked → Picked → Type 0
  ListAll candidates picked next =
      ((path : String) → IsListed path picked → IsListed path next)
      × ((a : Artifact) → Has a candidates → IsListed a.path next)

  pick_all-ListAll :
      (candidates : List Artifact) (picked : Picked)
      → IfValue
          (ListAll candidates picked)
          (pick_all host stage_id budget priorities candidates picked)
  unfolding pick_all
  pick_all-ListAll [] picked = (λ path m. m, λ a m. absurd m)
  pick_all-ListAll (a ∷ rest) picked =
      go (pick host stage_id budget priorities a picked) (pick-Lists a picked)
        (λ next. pick_all-ListAll rest next)
    where
      last :
          (next : Picked) (r : Attempt Picked)
          → Lists a picked next
          → IfValue (ListAll rest next) r
          → IfValue (ListAll (a ∷ rest) picked) r
      last next (error message) h k = tt
      last next (value done) h k = (
        λ path m. k.0 path (h.0 path m),
        λ x m. elim m [
          | inl e ↦ subst (λ z. IsListed z done) (ap (λ (z : Artifact). z.path) e) (k.0 a.path h.1)
          | inr n ↦ k.1 x n
        ],
      )

      go :
          (r : Attempt Picked)
          → IfValue (Lists a picked) r
          → ((next : Picked)
              → IfValue (ListAll rest next) (pick_all host stage_id budget priorities rest next))
          → IfValue (ListAll (a ∷ rest) picked) (elim r [
            | value next ↦ pick_all host stage_id budget priorities rest next
            | error message ↦ error message
          ])
      go (value next) h k =
          last next (pick_all host stage_id budget priorities rest next) h (k next)
      go (error message) h k = tt

  pub select-IsListed :
      (document : ArtifactDocument) (tick : ℕ)
      → IfValue
          (λ (s : ContextSelection).
            (a : Artifact)
            → Has a (map (λ e. e.1) (by_path document []))
            → is_some (lookup a.path priorities) ≡ true
            → IsListed a.path s.picked)
          (select host stage_id budget document priorities tick)
  unfolding select
  select-IsListed document tick = elim (Bool-cases (ltb budget 1)) [
    | inl e ↦ rw e tt
    | inr e ↦ rw e (
        go (pick_all host stage_id budget priorities candidates nothing_picked)
          (pick_all-ListAll candidates nothing_picked))
  ]
    where
      items : List Artifact
      items = map (λ e. e.1) (by_path document [])

      candidates : List Artifact
      candidates =
          sorted (candidate_leb priorities) (filter (λ a. is_some (lookup a.path priorities)) items)

      go :
          (r : Attempt Picked)
          → IfValue (ListAll candidates nothing_picked) r
          → IfValue
              (λ (s : ContextSelection).
                (a : Artifact)
                → Has a items
                → is_some (lookup a.path priorities) ≡ true
                → IsListed a.path s.picked)
              (elim r [
                | value picked ↦ value (record {
                  stage_id = stage_id;
                  token_budget = budget;
                  picked = picked;
                  created_at = host.utc_now tick;
                })
                | error message ↦ error message
              ])
      go (error message) h = tt
      go (value picked) h = λ a m k. h.1 a (
          Has-sorted (candidate_leb priorities) a
            (filter (λ a. is_some (lookup a.path priorities)) items)
            (Has-filter a (λ a. is_some (lookup a.path priorities)) items m k))
