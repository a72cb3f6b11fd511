-- ===== src/Artifacts/Pruner/Given.antt =====
-- What the items of a selection have in common with the artifacts that they come from.
use forge_os.Base.{
  Has, ℕ, ◌+◌, String, Bool, true, false, not, Option, none, some, List, [], ◌∷◌, ◌≡◌, refl, inl,
  inr, arith, map, filter, if◌then◌else◌, ltb, All, All-append, Bool-cases,
}
use forge_os.Base.Dict.{Dict, lookup}
use forge_os.Base.Sort.{sorted, All-sorted}
use forge_os.Host.{Host, Attempt, value, error}
use forge_os.Artifacts.{Artifact, ArtifactDocument, fresh, status_eq}
use forge_os.Artifacts.Selection.{
  SelectedContextItem, Picked, ContextSelection, by_path, select, pick, pick_all, omit, select_item,
  priority_of, is_some, candidate_leb, nothing_picked, artifact_status, token_budget_exceeded,
}
use forge_os.Artifacts.Selection.Budget.{IfValue}
use forge_os.Artifacts.Selection.Spread.Distance.{Walk, IsDistance}

module _ (host : Host) (stage_id : String) (budget : ℕ) (priorities : Dict ℕ)
    (P : SelectedContextItem → Type 0) where
  -- an artifact whose item would have the property, if it is fresh
  abbrev Gives : Artifact → Type 0
  Gives a =
      status_eq a.status fresh ≡ true
      → (item : SelectedContextItem) → item.path ≡ a.path
      → item.priority ≡ priority_of priorities a
      → item.token_estimate ≡ a.token_estimate
      → P item

  pick-All :
      (a : Artifact) (picked : Picked)
      → Gives a
      → All P picked.selected
      → IfValue
          (λ (next : Picked). All P next.selected)
          (pick host stage_id budget priorities a picked)
  unfolding pick omit select_item
  pick-All a picked g h =
      go (status_eq a.status fresh) refl (ltb budget (picked.total_tokens + a.token_estimate))
        (host.read_text a.path)
    where
      go :
          (f : Bool)
          → status_eq a.status fresh ≡ f
          → (b : Bool) (r : Attempt String)
          → IfValue
              (λ (next : Picked). All P next.selected)
              (if not f
                then value (omit a (artifact_status a.status) picked)
                else if b
                then value (omit a token_budget_exceeded picked)
                else (elim r [
                  | value content ↦
                      value (select_item stage_id (priority_of priorities a) content a picked)
                  | error message ↦ error message
                ]))
      go false e b r = h
      go true e true r = h
      go true e false (value content) = All-append P picked.selected _ h (g e _ refl refl refl, tt)
      go true e false (error message) = tt

  pick_all-All :
      (candidates : List Artifact) (picked : Picked)
      → All Gives candidates
      → All P picked.selected
      → IfValue
          (λ (next : Picked). All P next.selected)
          (pick_all host stage_id budget priorities candidates picked)
  unfolding pick_all
  pick_all-All [] picked g h = h
  pick_all-All (a ∷ rest) picked g h =
      go (pick host stage_id budget priorities a picked) (pick-All a picked g.0 h)
        (λ next. pick_all-All rest next g.1)
    where
      go :
          (r : Attempt Picked)
          → IfValue (λ (next : Picked). All P next.selected) r
          → ((next : Picked)
              → All P next.selected
              → IfValue
                  (λ (last : Picked). All P last.selected)
                  (pick_all host stage_id budget priorities rest next))
          → IfValue
              (λ (last : Picked). All P last.selected)
              (elim r [
                | value next ↦ pick_all host stage_id budget priorities rest next
                | error message ↦ error message
              ])
      go (value next) k rec = rec next k
      go (error message) k rec = tt

  All-filter_true :
      {A : Type 0} (Q : A → Type 0) (p : A → Bool) (xs : List A)
      → ((a : A) → Has a xs → p a ≡ true → Q a)
      → All Q (filter p xs)
  All-filter_true Q p [] f = tt
  All-filter_true Q p (x ∷ xs) f = elim (Bool-cases (p x)) [
    | inl e ↦ rw e (f x (inl refl) e, All-filter_true Q p xs (λ a m. f a (inr m)))
    | inr e ↦ rw e (All-filter_true Q p xs (λ a m. f a (inr m)))
  ]

  pub select-All :
      (document : ArtifactDocument) (tick : ℕ)
      → ((a : Artifact)
          → Has a (map (λ e. e.1) (by_path document []))
          → is_some (lookup a.path priorities) ≡ true
          → Gives a)
      → IfValue
          (λ (s : ContextSelection). All P s.picked.selected)
          (select host stage_id budget document priorities tick)
  unfolding select
  select-All document tick g = elim (Bool-cases (ltb budget 1)) [
    | inl e ↦ rw e tt
    | inr e ↦ rw e (
        go (pick_all host stage_id budget priorities candidates nothing_picked)
          (pick_all-All candidates nothing_picked given tt))
  ]
    where
      candidates : List Artifact
      candidates =
          sorted (candidate_leb priorities) (
            filter (λ a. is_some (lookup a.path priorities)) (map (λ e. e.1) (by_path document [])))

      given : All Gives candidates
      given = All-sorted Gives (candidate_leb priorities) _ (
          All-filter_true Gives (λ a. is_some (lookup a.path priorities))
            (map (λ e. e.1) (by_path document [])) g)

      go :
          (r : Attempt Picked)
          → IfValue (λ (next : Picked). All P next.selected) r
          → IfValue
              (λ (s : ContextSelection). All P s.picked.selected)
              (elim r [
                | value picked ↦ value (record {
                  stage_id = stage_id;
                  token_budget = budget;
                  picked = picked;
                  created_at = host.utc_now tick;
                })
                | error message ↦ error message
              ])
      go (value picked) h = h
      go (error message) h = tt

-- the priority of an artifact that has one
pub priority-Walk :
    (found : Dict Artifact) (sources : List String) (priorities : Dict ℕ) (a : Artifact)
    → IsDistance found sources priorities
    → is_some (lookup a.path priorities) ≡ true
    → Walk found sources a.path (priority_of priorities a)
priority-Walk found sources priorities a d h = go (lookup a.path priorities) refl h
  where
    go :
        (o : Option ℕ)
        → lookup a.path priorities ≡ o
        → is_some o ≡ true
        → Walk found sources a.path (elim o [ none ↦ 0 | some n ↦ n ])
    go none e t = absurd (ground (arith, t))
    go (some n) e t = (d a.path n).0 e
