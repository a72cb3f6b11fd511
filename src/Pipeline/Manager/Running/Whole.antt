-- ===== src/Pipeline/Manager/Running/Whole.antt =====
-- A stage starts and completes among the others, in a project where nothing fails.
use mathlib.Core.Path.{subst}
use forge_os.Base.{
  String, Option, none, some, ◌∷◌, ◌++◌, ◌≡◌, ap, sym, ◌∙◌, map, any, get_elem?, length,
}
use forge_os.Base.Outcome.{Outcome, done, raised}
use forge_os.Host.{Host}
use forge_os.Pipeline.State.{
  PipelineState, StageStatus, not_started, active, complete, is_complete, is_active, index_of,
  find_stage, previous,
}
use forge_os.Pipeline.World.{World}
use forge_os.Pipeline.Manager.{start_stage, complete_stage}
use forge_os.Pipeline.Manager.Spec.{View, view, Stages, entry, set_status, prev_ok}
use forge_os.Pipeline.Manager.Running.{MustDone, IsWritable, IsReviewable, IsCalm, IsCalm-IsSaved}
use forge_os.Pipeline.Manager.Running.Starts.{start_stage-MustDone}
use forge_os.Pipeline.Manager.Running.Finishes.{IsDone, complete_stage-MustDone}
use forge_os.Pipeline.Manager.Running.Rows.{
  IsPast, IsFuture, Row, Row-split, index_of-row, get_elem?-row, find_stage-row, previous-row,
  idle-row, set_status-row,
}

pub mono :
    {W A : Type 0} {P Q : A → W → Type 0} (o : Outcome W A)
    → ((t : A) (y : W) → P t y → Q t y)
    → MustDone o P
    → MustDone o Q
mono (done t y) f h = f t y h
mono (raised x y) f h = absurd h

module _ (host : Host) (writable : IsWritable host) (review : IsReviewable host) where
  pub start-row :
      (w : World host) (s : PipelineState) (c : Option String) (past : Stages) (x : String)
      (future : Stages)
      → IsCalm host w
      → w.state_file ≡ some s
      → view s ≡ record { current = c; stages = past ++ (x, not_started) ∷ future }
      → IsPast x past
      → IsFuture future
      → MustDone
          (start_stage host x w)
          (IsDone host (record { current = some x; stages = past ++ (x, active) ∷ future }))
  start-row w s c past x future calm file v p f =
      let r : Row s.stages past (x, not_started) future =
        Row-split past (x, not_started) future s.stages (ap (λ (d : View). d.stages) v) in
      let same : r.stage.stage_id ≡ x = ap (λ (e : String × StageStatus). e.0) r.stage_entry in
      let st : r.stage.status ≡ not_started =
        ap (λ (e : String × StageStatus). e.1) r.stage_entry in
      let p' : IsPast x (map entry r.before) = subst (IsPast x) (sym r.before_entries) p in
      let p'' : IsPast r.stage.stage_id (map entry r.before) =
        subst (λ y. IsPast y (map entry r.before)) (sym same) p' in
      let f' : IsFuture (map entry r.later) = subst IsFuture (sym r.later_entries) f in
      mono (start_stage host x w)
        (λ t y (k, e). (
          IsCalm-IsSaved host w y t calm k,
          k.file,
          e ∙ (λ i. record {
            current = some x;
            stages =
                (ap (λ (d : View). set_status x active d.stages) v
                    ∙ set_status-row x not_started active past future p)
                  i;
          }),
        ))
        (start_stage-MustDone host writable w s x calm file (record {
          index = length r.before;
          stage = r.stage;
          indexed =
              ap (index_of x) r.split
              ∙ subst (λ y. index_of y (r.before ++ r.stage ∷ r.later) ≡ some (length r.before))
                  same (index_of-row r.stage r.later r.before p'');
          found =
              ap (λ ss. get_elem? ss (length r.before)) r.split
              ∙ get_elem?-row r.stage r.later r.before;
          unfinished = ap is_complete st;
          idle =
              ap (any (λ x. is_active x.status)) r.split
              ∙ idle-row r.stage r.later r.before x p' st f';
          ready =
              ap (λ ss. prev_ok (previous (length r.before) ss)) r.split
              ∙ previous-row r.stage r.later r.before x p';
        }))

  pub complete-row :
      (w : World host) (s : PipelineState) (c : Option String) (past : Stages) (x : String)
      (future : Stages)
      → IsCalm host w
      → w.state_file ≡ some s
      → view s ≡ record { current = c; stages = past ++ (x, active) ∷ future }
      → IsPast x past
      → MustDone
          (complete_stage host x w)
          (IsDone host (record { current = none; stages = past ++ (x, complete) ∷ future }))
  complete-row w s c past x future calm file v p =
      let r : Row s.stages past (x, active) future =
        Row-split past (x, active) future s.stages (ap (λ (d : View). d.stages) v) in
      let same : r.stage.stage_id ≡ x = ap (λ (e : String × StageStatus). e.0) r.stage_entry in
      let st : r.stage.status ≡ active = ap (λ (e : String × StageStatus). e.1) r.stage_entry in
      let p'' : IsPast r.stage.stage_id (map entry r.before) =
        subst (λ y. IsPast y (map entry r.before)) (sym same)
          (subst (IsPast x) (sym r.before_entries) p) in
      mono (complete_stage host x w)
        (λ t y (k, file', e). (
          k,
          file',
          e ∙ (λ i. record {
            current = none;
            stages =
                (ap (λ (d : View). set_status x complete d.stages) v
                    ∙ set_status-row x active complete past future p)
                  i;
          }),
        ))
        (complete_stage-MustDone host writable review w s x r.stage calm file
          (ap (find_stage x) r.split
            ∙ subst (λ y. find_stage y (r.before ++ r.stage ∷ r.later) ≡ some r.stage) same
                (find_stage-row r.stage r.later r.before p''))
          (ap is_active st))
