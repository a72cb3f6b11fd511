-- ===== src/Pipeline/Manager/Safety/Starting.antt =====
-- What `start_stage` keeps.
use mathlib.Core.Path.{subst}
use forge_os.Base.{
  ℕ, String, true, false, Option, none, some, ◌≡◌, refl, sym, any, Bool-cases, inl, inr, get_elem?,
  ◌==◌,
}
use forge_os.Host.{Host}
use forge_os.Pipeline.State.{PipelineState, StageState, is_active, is_complete, index_of, previous}
use forge_os.Pipeline.World.{load}
use forge_os.Pipeline.Saving.{save, log_transition}
use forge_os.Pipeline.Manager.{
  raise_if, require, check_previous, entered, started, check_start, start_stage,
}
use forge_os.Pipeline.Manager.Spec.{View, view, Step, prev_ok}
use forge_os.Pipeline.Manager.Keeping.{
  Triple, bind, load_rule, raise_rule, raise_if_rule, require_rule, return_rule, forget,
}
use forge_os.Pipeline.Manager.Keeping.Saves.{clock_rule, save_rule, log_rule}
use forge_os.Pipeline.Manager.Safety.Moves.{started-Step}

-- an idle pipeline with the invariant
abbrev pub Idle : (View → Type 0) → View → Type 0
Idle I c = I c × (c.current ≡ none)

pub idle : (I : View → Type 0) (c : View) → Idle I c → I c
idle I c h = h.0

module _ (host : Host) where
  module _ (I : View → Type 0) where
    sub : (c : View) → I c → I c
    sub c h = h

    check_start_rule :
        (state : PipelineState) (stage_id : String) (stage : StageState) (i : ℕ)
        → Triple host I
            (check_start host state stage_id stage i)
            (λ _.
              (is_complete stage.status ≡ false)
              × (any (λ s. is_active s.status) state.stages ≡ false)
              × (prev_ok (previous i state.stages) ≡ true))
            I
            I
    unfolding check_start
    check_start_rule state stage_id stage i =
        bind host (raise_if host (is_active stage.status) _) _ (raise_if_rule host sub _ _) λ _ _.
          bind host (raise_if host (is_complete stage.status) _) _ (raise_if_rule host sub _ _)
            λ _ hc.
              bind host (raise_if host (any (λ s. is_active s.status) state.stages) _) _
                (raise_if_rule host sub _ _) λ _ ha. last (previous i state.stages) hc ha
      where
        last :
            (o : Option StageState)
            → is_complete stage.status ≡ false
            → any (λ s. is_active s.status) state.stages ≡ false
            → Triple host I
                (check_previous host o)
                (λ _.
                  (is_complete stage.status ≡ false)
                  × (any (λ s. is_active s.status) state.stages ≡ false)
                  × (prev_ok o ≡ true))
                I
                I
        last none hc ha = return_rule host I _ tt (hc, ha, refl)
        last (some p) hc ha = elim (Bool-cases (is_complete p.status)) [
          | inl e ↦ rw e (return_rule host I _ tt (hc, ha, refl))
          | inr e ↦ rw e (raise_rule host sub _ I _)
        ]

    module _ (closed : (c d : View) → Step c d → I c → I d) where
      pub start_stage_rule :
          (stage_id : String) → Triple host I (start_stage host stage_id) (λ _. Unit) I I
      unfolding start_stage
      start_stage_rule stage_id = bind host (load host) _ (load_rule host sub) λ state h.
          bind host (require host _ (index_of stage_id state.stages)) _ (require_rule host sub _ _)
            λ i hi.
              bind host (require host _ (get_elem? state.stages i)) _ (require_rule host sub _ _)
                λ stage hs.
                  bind host (check_start host state stage_id stage i) _
                    (check_start_rule state stage_id stage i)
                    λ _ (hc, ha, hp).
                      bind host (entered host stage.entered_at) _ (entered_rule stage.entered_at)
                        λ time _.
                          let next : PipelineState = started host state stage_id time in
                          let h' : I (view next) =
                            closed (view state) (view next)
                              (started-Step state stage_id i stage time hi hs hc ha hp) h in
                          bind host (save host next) _ (save_rule host sub I sub next h') λ saved e.
                            forget host (log_transition host "StageStarted" saved stage_id none) (
                              log_rule host sub I "StageStarted" saved stage_id none
                                (subst I (sym e) h'))
        where
          entered_rule : (o : Option String) → Triple host I (entered host o) (λ _. Unit) I I
          entered_rule none = clock_rule host sub
          entered_rule (some t) = elim (Bool-cases (t == "")) [
            | inl e ↦ rw e (clock_rule host sub)
            | inr e ↦ rw e (return_rule host I (λ _. Unit) t tt)
          ]
