-- ===== src/Pipeline/Manager/Running/Along.antt =====
-- `advance` from an active stage to the next one, in a project where nothing fails.
use mathlib.Core.Path.{subst}
use forge_os.Base.{
  suc, String, Option, none, some, List, [], ◌∷◌, ◌++◌, ◌≡◌, refl, ap, sym, ◌∙◌, arith, map,
  get_elem?, length, not,
}
use forge_os.Host.{Host}
use forge_os.Pipeline.State.{
  PipelineState, StageState, StageStatus, not_started, active, complete, is_not_started, is_active,
  index_of, first_not_started,
}
use forge_os.Pipeline.World.{World, Managed, load}
use forge_os.Pipeline.Saving.{save}
use forge_os.Pipeline.Manager.{
  start_stage, complete_stage, close_pipeline, advance_idle, advance_from, advance, require,
  raise_if,
}
use forge_os.Pipeline.Manager.Spec.{View, view, Stages, entry}
use forge_os.Pipeline.Manager.Running.{
  MustDone, MustDone-bind, MustDone-then, IsWritable, IsReviewable, IsCalm, IsCalm-IsSaved,
}
use forge_os.Pipeline.Manager.Running.Writes.{save-MustDone}
use forge_os.Pipeline.Manager.Running.Starts.{load-done, require-done, raise_if-done}
use forge_os.Pipeline.Manager.Running.Finishes.{IsDone}
use forge_os.Pipeline.Manager.Running.Rows.{
  IsPast, IsFuture, Row, Row-split, index_of-row, get_elem?-row, get_elem?-later,
  first_not_started-row,
}
use forge_os.Pipeline.Manager.Running.Whole.{mono, start-row, complete-row}

-- the state after the current stage: none is left, or the first of the others is active
abbrev pub after_last : Stages → String → Stages → View
after_last past x [] = record { current = none; stages = past ++ (x, complete) ∷ [] }
after_last past x ((y, st) ∷ future) = record {
  current = some y;
  stages = (past ++ (x, complete) ∷ []) ++ (y, active) ∷ future;
}

-- the stage has another name than those before it, and so on along the others
abbrev pub Fits : Stages → String → Stages → Type 0
Fits past x [] = IsPast x past
Fits past x ((y, st) ∷ future) = IsPast x past × Fits (past ++ (x, complete) ∷ []) y future

Fits-IsPast : (past : Stages) (x : String) (future : Stages) → Fits past x future → IsPast x past
Fits-IsPast past x [] h = h
Fits-IsPast past x (e ∷ future) h = h.0

pub past-snoc :
    (past : Stages) (x : String) (future : Stages)
    → (past ++ (x, complete) ∷ []) ++ future ≡ past ++ (x, complete) ∷ future
past-snoc [] x future = refl
past-snoc (e ∷ past) x future = ap (◌∷◌ e) (past-snoc past x future)

next-later :
    (s : PipelineState) (past : Stages) (e : String × StageStatus) (future : Stages)
    (r : Row s.stages past e future)
    → get_elem? s.stages (suc (length r.before)) ≡ get_elem? r.later 0
next-later s past e future r =
    ap (λ ss. get_elem? ss (suc (length r.before))) r.split
    ∙ get_elem?-later r.stage r.later r.before

module _ (host : Host) (writable : IsWritable host) (review : IsReviewable host) where
  close-IsDone :
      (w : World host) (s : PipelineState) (stages : Stages)
      → IsCalm host w
      → w.state_file ≡ some s
      → view s ≡ record { current = none; stages = stages }
      → MustDone (close_pipeline host w) (IsDone host (record { current = none; stages = stages }))
  unfolding close_pipeline
  close-IsDone w s stages calm file v =
      MustDone-then _ (load host) _ w w s (load-done host w s file) (
        mono (save host (record s { current_stage_id = none }) w)
          (λ t y (k, stamped). (
            IsCalm-IsSaved host w y t calm k,
            k.file,
            ap view stamped ∙ (λ i. record { current = none; stages = (v i).stages }),
          ))
          (save-MustDone host writable w calm (record s { current_stage_id = none })))

  -- the others after the stage, as `advance_from` sees them
  next-MustDone :
      (past : Stages) (x : String) (future : Stages) (later : List StageState) (w : World host)
      (s : PipelineState)
      → map entry later ≡ future
      → IsFuture future
      → IsCalm host w
      → w.state_file ≡ some s
      → view s ≡ record { current = none; stages = past ++ (x, complete) ∷ future }
      → Fits past x future
      → MustDone
          ((elim (get_elem? later 0) as (λ _. Managed host PipelineState) [
            | none ↦ close_pipeline host
            | some next ↦ start_stage host next.stage_id
          ])
            w)
          (IsDone host (after_last past x future))
  next-MustDone past x [] [] w s e f calm file v p = close-IsDone w s _ calm file v
  next-MustDone past x [] (l ∷ ls) w s e f calm file v p = absurd (ground (arith, e))
  next-MustDone past x ((y, st) ∷ future) [] w s e f calm file v p = absurd (ground (arith, e))
  next-MustDone past x ((y, st) ∷ future) (l ∷ ls) w s e f calm file v p =
      let id : l.stage_id ≡ y = ap (λ (es : Stages). elim es [ [] ↦ l.stage_id | e ∷ _ ↦ e.0 ]) e in
      subst
        (λ z. MustDone (start_stage host z w) (IsDone host (after_last past x ((y, st) ∷ future))))
        (sym id)
        (start-row host writable review w s none (past ++ (x, complete) ∷ []) y future calm file
          (v ∙ (λ i. record {
            current = none;
            stages =
                (ap (λ z. past ++ (x, complete) ∷ (y, z) ∷ future) f.0
                    ∙ sym (past-snoc past x ((y, not_started) ∷ future)))
                  i;
          }))
          (Fits-IsPast _ y future p.1) f.1)

  pub advance_from-row :
      (past : Stages) (x : String) (future : Stages) (w : World host) (s : PipelineState)
      → IsCalm host w
      → w.state_file ≡ some s
      → view s ≡ record { current = some x; stages = past ++ (x, active) ∷ future }
      → Fits past x future
      → IsFuture future
      → MustDone (advance_from host s x w) (IsDone host (after_last past x future))
  unfolding advance_from
  advance_from-row past x future w s calm file v fits f =
      let r : Row s.stages past (x, active) future =
        Row-split past (x, active) future s.stages (ap (λ (d : View). d.stages) v) in
      let same : r.stage.stage_id ≡ x = ap (λ (e : String × StageStatus). e.0) r.stage_entry in
      let st : r.stage.status ≡ active = ap (λ (e : String × StageStatus). e.1) r.stage_entry in
      let p : IsPast x past = Fits-IsPast past x future fits in
      let p'' : IsPast r.stage.stage_id (map entry r.before) =
        subst (λ y. IsPast y (map entry r.before)) (sym same)
          (subst (IsPast x) (sym r.before_entries) p) in
      MustDone-then _ (require host _ (index_of x s.stages)) _ w w (length r.before)
        (require-done host _ _ (length r.before) w (
          ap (index_of x) r.split
          ∙ subst (λ y. index_of y (r.before ++ r.stage ∷ r.later) ≡ some (length r.before)) same
              (index_of-row r.stage r.later r.before p'')))
        (MustDone-then _ (require host _ (get_elem? s.stages (length r.before))) _ w w r.stage
          (require-done host _ _ r.stage w (
            ap (λ ss. get_elem? ss (length r.before)) r.split
            ∙ get_elem?-row r.stage r.later r.before))
          (MustDone-then _ (raise_if host (not (is_active r.stage.status)) _) _ w w tt
            (raise_if-done host _ _ w (ap (λ z. not (is_active z)) st))
            (MustDone-bind _ _ (complete_stage host x) _ w
              (complete-row host writable review w s (some x) past x future calm file v p)
              (λ t u (k, file', v').
                subst
                  (λ (o : Option StageState).
                    MustDone
                      ((elim o as (λ _. Managed host PipelineState) [
                        | none ↦ close_pipeline host
                        | some next ↦ start_stage host next.stage_id
                      ])
                        u)
                      (IsDone host (after_last past x future)))
                  (sym (next-later s past (x, active) future r))
                  (next-MustDone past x future r.later u t r.later_entries f k file' v' fits)))))

  pub advance-row :
      (past : Stages) (x : String) (future : Stages) (w : World host) (s : PipelineState)
      → IsCalm host w
      → w.state_file ≡ some s
      → view s ≡ record { current = some x; stages = past ++ (x, active) ∷ future }
      → Fits past x future
      → IsFuture future
      → MustDone (advance host w) (IsDone host (after_last past x future))
  unfolding advance
  advance-row past x future w s calm file v fits f =
      MustDone-then _ (load host) _ w w s (load-done host w s file) (
        subst
          (λ (o : Option String).
            MustDone
              ((elim o as (λ _. Managed host PipelineState) [
                | none ↦ advance_idle host s
                | some current_id ↦ advance_from host s current_id
              ])
                w)
              (IsDone host (after_last past x future)))
          (sym (ap (λ (c : View). c.current) v))
          (advance_from-row past x future w s calm file v fits f))

  pub advance-idle :
      (x : String) (future : Stages) (w : World host) (s : PipelineState)
      → IsCalm host w
      → w.state_file ≡ some s
      → view s ≡ record { current = none; stages = (x, not_started) ∷ future }
      → IsFuture future
      → MustDone
          (advance host w)
          (IsDone host (record { current = some x; stages = (x, active) ∷ future }))
  unfolding advance advance_idle
  advance-idle x future w s calm file v f =
      let after : View = record { current = some x; stages = (x, active) ∷ future } in
      let r : Row s.stages [] (x, not_started) future =
        Row-split [] (x, not_started) future s.stages (ap (λ (c : View). c.stages) v) in
      let same : r.stage.stage_id ≡ x = ap (λ (e : String × StageStatus). e.0) r.stage_entry in
      let st : r.stage.status ≡ not_started =
        ap (λ (e : String × StageStatus). e.1) r.stage_entry in
      MustDone-then _ (load host) _ w w s (load-done host w s file) (
        subst
          (λ (o : Option String).
            MustDone
              ((elim o as (λ _. Managed host PipelineState) [
                | none ↦ advance_idle host s
                | some current_id ↦ advance_from host s current_id
              ])
                w)
              (IsDone host after))
          (sym (ap (λ (c : View). c.current) v))
          (MustDone-then _ (require host _ (first_not_started s.stages)) _ w w r.stage
            (require-done host _ _ r.stage w (
              ap first_not_started r.split
              ∙ first_not_started-row r.stage r.later r.before x
                  (subst (IsPast x) (sym r.before_entries) tt) (ap is_not_started st)))
            (subst (λ y. MustDone (start_stage host y w) (IsDone host after)) (sym same)
              (start-row host writable review w s none [] x future calm file v tt f))))
