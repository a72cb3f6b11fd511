-- ===== src/Artifacts/Selection/Budget.antt =====
-- What a selection holds: its tokens, and why an artifact is not in it.
use forge_os.Base.{
  ℕ, ◌+◌, ◌≤◌, ◌<◌, String, Bool, true, false, not, List, [], ◌∷◌, ◌++◌, ◌≡◌, refl, arith,
  if◌then◌else◌, All, All-append, All-mono, ltb,
}
use forge_os.Base.Dict.{Dict}
use forge_os.Host.{Host, Attempt, value, error}
use forge_os.Artifacts.{Artifact, fresh, status_eq}
use forge_os.Artifacts.Selection.{
  Omission, artifact_status, token_budget_exceeded, OmittedItem, SelectedContextItem, Picked, omit,
  select_item, pick, pick_all, priority_of, selection_reason,
}

abbrev pub tokens : List SelectedContextItem → ℕ
tokens [] = 0
tokens (item ∷ rest) = item.token_estimate + tokens rest

tokens-append : (xs ys : List SelectedContextItem) → tokens (xs ++ ys) ≡ tokens xs + tokens ys
tokens-append [] ys = omega arith
tokens-append (x ∷ xs) ys = omega (arith, tokens-append xs ys)

-- an artifact that is omitted for the budget would not fit any more
abbrev pub WhyOmitted : ℕ → ℕ → ℕ → Omission → Type 0
WhyOmitted budget total estimate (artifact_status status) = status_eq status fresh ≡ false
WhyOmitted budget total estimate token_budget_exceeded = budget < total + estimate

abbrev pub IsJustified : ℕ → ℕ → OmittedItem → Type 0
IsJustified budget total item = WhyOmitted budget total item.token_estimate item.reason

-- The total is that of the selected items and within the budget; what is omitted is not fresh, or
-- would exceed the budget.
pub record IsWithin (budget : ℕ) (picked : Picked) : Type 0 where
  pub total : picked.total_tokens ≡ tokens picked.selected
  pub bounded : picked.total_tokens ≤ budget
  pub justified : All (IsJustified budget picked.total_tokens) picked.omitted

abbrev pub IfValue : {A : Type 0} → (A → Type 0) → Attempt A → Type 0
IfValue P (value a) = P a
IfValue P (error e) = Unit

why_mono :
    (budget m n estimate : ℕ) (reason : Omission)
    → m ≤ n
    → WhyOmitted budget m estimate reason
    → WhyOmitted budget n estimate reason
why_mono budget m n estimate (artifact_status status) le h = h
why_mono budget m n estimate token_budget_exceeded le h = omega (arith, le, h)

IsWithin-omit :
    (budget : ℕ) (a : Artifact) (reason : Omission) (picked : Picked)
    → WhyOmitted budget picked.total_tokens a.token_estimate reason
    → IsWithin budget picked
    → IsWithin budget (omit a reason picked)
unfolding omit
IsWithin-omit budget a reason picked why w = record {
  total = w.total;
  bounded = w.bounded;
  justified =
      All-append (IsJustified budget picked.total_tokens) picked.omitted
        (record { path = a.path; reason = reason; token_estimate = a.token_estimate } ∷ [])
        w.justified (why, tt);
}

IsWithin-select :
    (budget : ℕ) (stage_id : String) (priority : ℕ) (content : String) (a : Artifact)
    (picked : Picked)
    → picked.total_tokens + a.token_estimate ≤ budget
    → IsWithin budget picked
    → IsWithin budget (select_item stage_id priority content a picked)
unfolding select_item
IsWithin-select budget stage_id priority content a picked fits w = record {
  total = omega (arith, w.total, tokens-append picked.selected (item ∷ []));
  bounded = fits;
  justified =
      All-mono (IsJustified budget picked.total_tokens)
        (IsJustified budget (picked.total_tokens + a.token_estimate))
        (λ o h.
          why_mono budget picked.total_tokens (picked.total_tokens + a.token_estimate)
            o.token_estimate o.reason (omega arith) h)
        picked.omitted w.justified;
}
  where
    item : SelectedContextItem
    item = record {
      artifact_id = a.id;
      path = a.path;
      priority = priority;
      token_estimate = a.token_estimate;
      reason = selection_reason stage_id a priority;
      content = content;
    }

module _ (host : Host) (stage_id : String) (budget : ℕ) (priorities : Dict ℕ) where
  pick-IsWithin :
      (a : Artifact) (picked : Picked)
      → IsWithin budget picked
      → IfValue (IsWithin budget) (pick host stage_id budget priorities a picked)
  unfolding pick
  pick-IsWithin a picked w =
      go (status_eq a.status fresh) refl (ltb budget (picked.total_tokens + a.token_estimate)) refl
    where
      read : Attempt String → Attempt Picked
      read r = elim r [
        | value content ↦ value (select_item stage_id (priority_of priorities a) content a picked)
        | error message ↦ error message
      ]

      found :
          (r : Attempt String)
          → picked.total_tokens + a.token_estimate ≤ budget
          → IfValue (IsWithin budget) (read r)
      found (value content) fits =
          IsWithin-select budget stage_id (priority_of priorities a) content a picked fits w
      found (error message) fits = tt

      go :
          (f : Bool)
          → status_eq a.status fresh ≡ f
          → (b : Bool) → ltb budget (picked.total_tokens + a.token_estimate) ≡ b
          → IfValue (IsWithin budget) (
              if not f
              then value (omit a (artifact_status a.status) picked)
              else if b
              then value (omit a token_budget_exceeded picked)
              else read (host.read_text a.path))
      go false ef b eb = IsWithin-omit budget a (artifact_status a.status) picked ef w
      go true ef true eb =
          IsWithin-omit budget a token_budget_exceeded picked (ground (arith, eb)) w
      go true ef false eb = found (host.read_text a.path) (ground (arith, eb))

  pub pick_all-IsWithin :
      (candidates : List Artifact) (picked : Picked)
      → IsWithin budget picked
      → IfValue (IsWithin budget) (pick_all host stage_id budget priorities candidates picked)
  unfolding pick_all
  pick_all-IsWithin [] picked w = w
  pick_all-IsWithin (a ∷ rest) picked w =
      go (pick host stage_id budget priorities a picked) (pick-IsWithin a picked w)
        (λ next. pick_all-IsWithin rest next)
    where
      go :
          (r : Attempt Picked)
          → IfValue (IsWithin budget) r
          → ((next : Picked)
              → IsWithin budget next
              → IfValue (IsWithin budget) (pick_all host stage_id budget priorities rest next))
          → IfValue (IsWithin budget) (elim r [
            | value next ↦ pick_all host stage_id budget priorities rest next
            | error message ↦ error message
          ])
      go (value next) h k = k next h
      go (error message) h k = tt
