-- ===== src/Pipeline/Manager/Gating.antt =====
-- A stage is completed only when its gates let it.
use mathlib.Core.Path.{subst}
use mathlib.Core.Option.{some-injective}
use forge_os.Base.{
  String, Bool, true, false, not, Option, none, some, List, ◌≡◌, refl, ap, sym, ◌∙◌, arith,
  if◌then◌else◌, any, ◌&&◌,
}
use forge_os.Base.Outcome.{
  Action, Outcome, done, raised, returned, Error, state_error, IfDone, Yields, yields_bind,
  yields_any, yields_fact, yields_done,
}
use forge_os.Host.{Host}
use forge_os.Gates.Model.{GateCriterion, GateResult}
use forge_os.Gates.Coordinator.{applies, has_blocking_failures}
use forge_os.Gates.Coordinator.Stage.{evaluate_stage, Evaluated, evaluate_stage-Yields}
use forge_os.Gates.Coordinator.Verdicts.{is_blocking, stage_blocked}
use forge_os.Events.Bus.{Bus}
use forge_os.Pipeline.State.{PipelineState, is_active, find_stage}
use forge_os.Pipeline.World.{World, load, on_bus}
use forge_os.Pipeline.Saving.{save, log_transition}
use forge_os.Pipeline.Manager.{
  raise_if, require, evaluate_gates_for_stage, stage_blocked_state, block_stage, finish_stage,
  complete_stage,
}

module _ (host : Host) where
  -- the gate file has no gate that blocks the stage
  abbrev pub GatesPass : Option (List (GateCriterion host.Num)) → String → Type 0
  GatesPass o stage_id =
      (gates : List (GateCriterion host.Num)) × (o ≡ some gates)
      × (any (λ g. applies host stage_id g && is_blocking host g) gates ≡ false)

  on_bus-Yields :
      {A : Type 0} (Q : A → Type 0) (m : Action Bus A)
      → Yields (λ _. Unit {0}) m (λ a _. Q a)
      → Yields (λ _. Unit {0}) (on_bus host m) (λ a _. Q a)
  unfolding on_bus
  on_bus-Yields {A} Q m y = record { run = λ w _. go w (m w.bus) (y.run w.bus tt) }
    where
      go :
          (w : World host) (o : Outcome Bus A)
          → IfDone o (λ a _. Q a)
          → IfDone {W = World host} {A = A}
              (elim o [
                | done a b ↦ done a (record w { bus = b })
                | raised e b ↦ raised e (record w { bus = b })
              ])
              (λ a _. Q a)
      go w (done a b) q = q
      go w (raised e b) q = tt

  -- results without a blocking failure come from gates that all pass
  pass_of :
      (o : Option (List (GateCriterion host.Num))) (stage_id : String) (results : List GateResult)
      → Evaluated host (record { gate_file = o; has_bus = true }) stage_id results
      → has_blocking_failures results ≡ false
      → GatesPass o stage_id
  pass_of o stage_id results ev h = (
    ev.0,
    ev.2,
    sym (stage_blocked host ev.0 stage_id ev.1)
        ∙ subst (λ r. has_blocking_failures r ≡ false) ev.3 h,
  )

  gates-Yields :
      (w : World host) (stage_id : String)
      → Yields
          (λ v. v ≡ w)
          (evaluate_gates_for_stage host stage_id)
          (λ r _. Evaluated host (record { gate_file = w.gate_file; has_bus = true }) stage_id r)
  unfolding evaluate_gates_for_stage
  gates-Yields w stage_id = record {
    run = λ v e.
        subst
          (λ x.
            IfDone
              (on_bus host
                (evaluate_stage host (record { gate_file = x.gate_file; has_bus = true }) stage_id)
                x)
              (λ r _.
                Evaluated host (record { gate_file = w.gate_file; has_bus = true }) stage_id r))
          (sym e)
          ((on_bus-Yields
              (Evaluated host (record { gate_file = w.gate_file; has_bus = true }) stage_id)
              (evaluate_stage host (record { gate_file = w.gate_file; has_bus = true }) stage_id)
              (evaluate_stage-Yields host (record { gate_file = w.gate_file; has_bus = true })
                stage_id)).run
            w tt);
  }

  load-Yields : (w : World host) → Yields (λ v. v ≡ w) (load host) (λ s v. v ≡ w)
  unfolding load
  load-Yields w = record { run = λ v e. go v v.state_file e }
    where
      go :
          (v : World host) (o : Option PipelineState)
          → v ≡ w
          → IfDone {W = World host} {A = PipelineState}
              (elim o [ none ↦ raised state_error v | some s ↦ done s v ])
              (λ s u. u ≡ w)
      go v none e = tt
      go v (some s) e = e

  require-Yields :
      {A : Type 0} (w : World host) (e : Error) (o : Option A)
      → Yields (λ v. v ≡ w) (require host e o) (λ _ v. v ≡ w)
  require-Yields w e none = record { run = λ v h. tt }
  require-Yields w e (some a) = record { run = λ v h. h }

  raise_if-Yields :
      (w : World host) (b : Bool) (e : Error)
      → Yields (λ v. v ≡ w) (raise_if host b e) (λ _ v. v ≡ w)
  raise_if-Yields w true e = record { run = λ v h. tt }
  raise_if-Yields w false e = record { run = λ v h. h }

  -- the branch in which a gate blocks never returns
  block_stage-Yields :
      (Q : Type 0) (state : PipelineState) (stage_id : String) (results : List GateResult)
      → Yields (λ _. Unit {0}) (block_stage host state stage_id results) (λ _ _. Q)
  unfolding block_stage
  block_stage-Yields Q state stage_id results =
      yields_bind (save host (stage_blocked_state host state stage_id results)) _
        (yields_any (λ _. Unit {0}) _)
        λ saved.
          yields_bind (log_transition host "StageBlocked" saved stage_id none) _
            (yields_any (λ _. Unit {0}) _) λ _. record { run = λ w _. tt }

  branch-Yields :
      (w : World host) (state : PipelineState) (stage_id : String) (results : List GateResult)
      (b : Bool)
      → has_blocking_failures results ≡ b
      → Evaluated host (record { gate_file = w.gate_file; has_bus = true }) stage_id results
      → Yields
          (λ _. Unit {0})
          (if b
            then block_stage host state stage_id results
            else finish_stage host state stage_id results)
          (λ _ _. GatesPass w.gate_file stage_id)
  branch-Yields w state stage_id results true h ev =
      block_stage-Yields (GatesPass w.gate_file stage_id) state stage_id results
  branch-Yields w state stage_id results false h ev = record {
    run = λ v _. go (finish_stage host state stage_id results v);
  }
    where
      go :
          (o : Outcome (World host) PipelineState)
          → IfDone o (λ _ _. GatesPass w.gate_file stage_id)
      go (done a u) = pass_of w.gate_file stage_id results ev h
      go (raised e u) = tt

  complete_stage-Yields :
      (w : World host) (stage_id : String)
      → Yields (λ v. v ≡ w) (complete_stage host stage_id) (λ _ _. GatesPass w.gate_file stage_id)
  unfolding complete_stage
  complete_stage-Yields w stage_id = yields_bind (load host) _ (load-Yields w) λ state.
      yields_bind (require host _ (find_stage stage_id state.stages)) _ (require-Yields w _ _)
        λ stage.
          yields_bind (raise_if host (not (is_active stage.status)) _) _ (raise_if-Yields w _ _)
            λ _.
              yields_bind (evaluate_gates_for_stage host stage_id) _ (gates-Yields w stage_id)
                λ results.
                  yields_fact
                    (Evaluated host (record { gate_file = w.gate_file; has_bus = true }) stage_id
                      results)
                    _
                    λ ev.
                      branch-Yields w state stage_id results (has_blocking_failures results) refl ev

  -- If completing a stage returns, then `pipeline/gates.yaml` was valid, and no gate in it that is
  -- enabled, has the severity "blocking" and names the stage or no stage has a check that failed or
  -- errored.
  pub complete_requires_gates :
      (stage_id : String) (w v : World host) (s : PipelineState)
      → complete_stage host stage_id w ≡ done s v
      → (gates : List (GateCriterion host.Num)) × (w.gate_file ≡ some gates)
        × (any (λ g. applies host stage_id g && is_blocking host g) gates ≡ false)
  complete_requires_gates stage_id w v s h =
      yields_done (λ _ _. GatesPass w.gate_file stage_id) (complete_stage host stage_id w) s v
        ((complete_stage-Yields w stage_id).run w refl) h

  -- While an enabled gate of the file for the stage, or for every stage, has the severity
  -- "blocking" and a check that failed or errored, completing the stage raises, and no result is
  -- returned.
  pub failing_gate_stops :
      (stage_id : String) (w : World host) (gates : List (GateCriterion host.Num))
      → w.gate_file ≡ some gates
      → any (λ g. applies host stage_id g && is_blocking host g) gates ≡ true
      → returned (complete_stage host stage_id w) ≡ false
  failing_gate_stops stage_id w gates e bad = go (complete_stage host stage_id w) refl
    where
      both : (b c : Bool) → b ≡ true → b ≡ c → c ≡ false → ⊥
      both b c t p q = ground (arith, t, p, q)

      go :
          (o : Outcome (World host) PipelineState)
          → complete_stage host stage_id w ≡ o
          → returned o ≡ false
      go (raised err v) h = refl
      go (done s v) h =
          let (found, file, good) = complete_requires_gates stage_id w v s h in
          absurd (
            both (any (λ g. applies host stage_id g && is_blocking host g) gates)
              (any (λ g. applies host stage_id g && is_blocking host g) found) bad
              (ap (λ l. any (λ g. applies host stage_id g && is_blocking host g) l)
                (some-injective gates found (sym e ∙ file)))
              good)
