-- ===== src/Artifacts/Selection/Made.antt =====
-- A selection is made, whenever the budget is positive and the files can be read.
use forge_os.Base.{
  map, ℕ, ◌+◌, ◌≤◌, String, Bool, true, false, not, List, [], ◌∷◌, ◌≡◌, refl, arith, if◌then◌else◌,
  filter, ltb,
}
use forge_os.Base.Dict.{Dict, lookup}
use forge_os.Base.Sort.{sorted}
use forge_os.Host.{Host, Attempt, value, error}
use forge_os.Artifacts.{Artifact, ArtifactDocument, fresh, status_eq}
use forge_os.Artifacts.Selection.{
  artifact_status, token_budget_exceeded, Picked, ContextSelection, omit, select_item, pick,
  pick_all, select, candidate_leb, priority_of, is_some, nothing_picked, by_path,
}
use forge_os.Artifacts.Selection.Budget.{IsWithin, IfValue, pick_all-IsWithin}

abbrev pub is_value : {A : Type 0} → Attempt A → Bool
is_value (value a) = true
is_value (error e) = false

-- every file has a text
abbrev pub IsReadable : Host → Type 0
IsReadable host = (path : String) → is_value (host.read_text path) ≡ true

module _ (host : Host) (stage_id : String) (budget : ℕ) (priorities : Dict ℕ)
    (readable : IsReadable host) where
  pick-value :
      (a : Artifact) (picked : Picked)
      → is_value (pick host stage_id budget priorities a picked) ≡ true
  unfolding pick
  pick-value a picked =
      go (status_eq a.status fresh) (ltb budget (picked.total_tokens + a.token_estimate))
    where
      read : Attempt String → Attempt Picked
      read r = elim r [
        | value content ↦ value (select_item stage_id (priority_of priorities a) content a picked)
        | error message ↦ error message
      ]

      found : (r : Attempt String) → is_value r ≡ true → is_value (read r) ≡ true
      found (value content) h = refl
      found (error message) h = h

      go :
          (f b : Bool)
          → is_value (
              if not f
              then value (omit a (artifact_status a.status) picked)
              else if b
              then value (omit a token_budget_exceeded picked)
              else read (host.read_text a.path))
            ≡ true
      go false b = refl
      go true true = refl
      go true false = found (host.read_text a.path) (readable a.path)

  pick_all-value :
      (candidates : List Artifact) (picked : Picked)
      → is_value (pick_all host stage_id budget priorities candidates picked) ≡ true
  unfolding pick_all
  pick_all-value [] picked = refl
  pick_all-value (a ∷ rest) picked =
      go (pick host stage_id budget priorities a picked) (pick-value a picked)
        (λ next. pick_all-value rest next)
    where
      go :
          (r : Attempt Picked)
          → is_value r ≡ true
          → ((next : Picked) → is_value (pick_all host stage_id budget priorities rest next) ≡ true)
          → is_value (elim r [
            | value next ↦ pick_all host stage_id budget priorities rest next
            | error message ↦ error message
          ])
            ≡ true
      go (value next) h k = k next
      go (error message) h k = h

-- With a positive budget and files that can be read, `select` returns a selection that counts the
-- tokens of its items exactly, stays within the budget, and leaves a candidate out only if it is
-- not fresh, or if its tokens on top of the final total exceed the budget.
pub select-IsWithin :
    (host : Host) (stage_id : String) (budget : ℕ) (document : ArtifactDocument)
    (priorities : Dict ℕ) (tick : ℕ)
    → 1 ≤ budget
    → IsReadable host
    → (s : ContextSelection) × ((select host stage_id budget document priorities tick ≡ value s)
        × IsWithin budget s.picked)
unfolding select
select-IsWithin host stage_id budget document priorities tick positive readable = rw low (
    finished (pick_all host stage_id budget priorities candidates nothing_picked)
      (pick_all-value host stage_id budget priorities readable candidates nothing_picked)
      (pick_all-IsWithin host stage_id budget priorities candidates nothing_picked
        (record { total = refl; bounded = omega arith; justified = tt })))
  where
    low : ltb budget 1 ≡ false
    low = ground (arith, positive)

    candidates : List Artifact
    candidates =
        sorted (candidate_leb priorities)
          (filter (λ a. is_some (lookup a.path priorities)) (map (λ e. e.1) (by_path document [])))

    finish : Attempt Picked → Attempt ContextSelection
    finish r = elim r [
      | value picked ↦ value (record {
        stage_id = stage_id;
        token_budget = budget;
        picked = picked;
        created_at = host.utc_now tick;
      })
      | error message ↦ error message
    ]

    finished :
        (r : Attempt Picked)
        → is_value r ≡ true
        → IfValue (IsWithin budget) r
        → (s : ContextSelection) × ((finish r ≡ value s) × IsWithin budget s.picked)
    finished (value picked) v h = (
      record {
        stage_id = stage_id;
        token_budget = budget;
        picked = picked;
        created_at = host.utc_now tick;
      },
      (refl, h),
    )
    finished (error message) v h = absurd (ground (arith, v))
