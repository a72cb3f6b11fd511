-- ===== src/Gates/Coordinator/Stage.antt =====
-- gates/coordinator.py, `evaluate_stage` and `_emit`: the evaluation of a stage with its two events.
use forge_os.Base.{
  ℕ, ◌+◌, ◌*◌, String, Bool, Option, none, some, List, [], ◌∷◌, length, ◌≡◌, refl, true, false,
}
use forge_os.Base.Outcome.{
  Action, done, raise, pure, gate_load_error, ◌>>=◌, ◌>>◌, IfDone, Yields, yields_bind, yields_any,
  yields_fact,
}
use forge_os.Events.Model.{Value, text, flag, num, LifecycleEvent, new_event}
use forge_os.Events.Bus.{Bus, emit}
use forge_os.Host.{Host}
use forge_os.Gates.Model.{GateCriterion, GateResult}
use forge_os.Gates.Coordinator.{gates_for_stage, evaluate_gates, has_blocking_failures}

-- The coordinator reads `pipeline/gates.yaml`: `none` where it cannot be loaded or is not valid.
pub record GateCoordinator (host : Host) : Type 0 where
  pub gate_file : Option (List (GateCriterion host.Num))
  pub has_bus : Bool

module _ (host : Host) where
  unfoldable pub gate_event : String → String → List (String × Value ℕ) → Bus → LifecycleEvent
  gate_event event_type stage_id payload bus =
      new_event (host.uuid bus.ticks) (host.utc_now bus.ticks) event_type (some stage_id) "core"
        "gate-coordinator" payload

  unfoldable pub emit_gate_event :
      Bool → String → String → List (String × Value ℕ) → Action Bus (Unit {0})
  unfolding gate_event
  emit_gate_event false event_type stage_id payload bus = done tt bus
  emit_gate_event true event_type stage_id payload bus =
      (do emit (gate_event event_type stage_id payload bus); pure tt)
        (record bus { ticks = bus.ticks + 1 })

  unfoldable pub load_gates : GateCoordinator host → Action Bus (List (GateCriterion host.Num))
  load_gates c = elim c.gate_file [ none ↦ raise gate_load_error | some gates ↦ pure gates ]

  unfoldable pub completed_payload : String → List GateResult → List (String × Value ℕ)
  completed_payload stage_id results =
      ("stage_id", text stage_id)
      ∷ ("blocking_failed", flag (has_blocking_failures results))
      ∷ ("result_count", num (length results))
      ∷ []

  unfoldable pub evaluate_loaded :
      String → List (GateCriterion host.Num) → Action Bus (List GateResult)
  evaluate_loaded stage_id gates bus =
      done (evaluate_gates host (gates_for_stage host gates stage_id) bus.ticks)
        (record bus { ticks = bus.ticks + 2 * length (gates_for_stage host gates stage_id) })

  unfoldable pub evaluate_stage : GateCoordinator host → String → Action Bus (List GateResult)
  unfolding emit_gate_event load_gates completed_payload evaluate_loaded
  evaluate_stage c stage_id = do
    emit_gate_event c.has_bus "GateStarted" stage_id (("stage_id", text stage_id) ∷ [])
    gates ← load_gates c
    results ← evaluate_loaded stage_id gates
    emit_gate_event c.has_bus "GateCompleted" stage_id (completed_payload stage_id results)
    pure results

  -- the results of the stage's gates, from a valid gate file
  abbrev pub Evaluated : GateCoordinator host → String → List GateResult → Type 0
  Evaluated c stage_id results =
      (gates : List (GateCriterion host.Num)) × (tick : ℕ) × (c.gate_file ≡ some gates)
      × (results ≡ evaluate_gates host (gates_for_stage host gates stage_id) tick)

  load_gates-Yields :
      (c : GateCoordinator host)
      → Yields (λ _. Unit {0}) (load_gates c) (λ gates _. c.gate_file ≡ some gates)
  unfolding load_gates
  load_gates-Yields c = record { run = λ b _. go c.gate_file b }
    where
      go :
          (o : Option (List (GateCriterion host.Num))) (b : Bus)
          → IfDone
              ((elim o as (λ _. Action Bus (List (GateCriterion host.Num))) [
                | none ↦ raise gate_load_error
                | some gates ↦ pure gates
              ])
                b)
              (λ gates _. o ≡ some gates)
      go none b = tt
      go (some gates) b = refl

  evaluate_loaded-Yields :
      (c : GateCoordinator host) (stage_id : String) (gates : List (GateCriterion host.Num))
      → c.gate_file ≡ some gates
      → Yields (λ _. Unit {0}) (evaluate_loaded stage_id gates) (λ r _. Evaluated c stage_id r)
  unfolding evaluate_loaded
  evaluate_loaded-Yields c stage_id gates e = record { run = λ b _. (gates, b.ticks, e, refl) }

  -- An evaluation that returns had a valid gate file, and returns the results of the stage's gates.
  pub evaluate_stage-Yields :
      (c : GateCoordinator host) (stage_id : String)
      → Yields (λ _. Unit {0}) (evaluate_stage c stage_id) (λ r _. Evaluated c stage_id r)
  unfolding evaluate_stage
  evaluate_stage-Yields c stage_id =
      yields_bind
        (emit_gate_event c.has_bus "GateStarted" stage_id (("stage_id", text stage_id) ∷ [])) _
        (yields_any (λ _. Unit {0}) _)
        λ _. yields_bind (load_gates c) _ (load_gates-Yields c) λ gates.
          yields_fact (c.gate_file ≡ some gates) _ λ e.
            yields_bind (evaluate_loaded stage_id gates) (report c)
              (evaluate_loaded-Yields c stage_id gates e)
              λ results. yields_fact (Evaluated c stage_id results) _ λ ev.
                yields_bind
                  (emit_gate_event c.has_bus "GateCompleted" stage_id
                    (completed_payload stage_id results))
                  (λ _. pure results) (yields_any (λ _. Unit {0}) _) λ _. record { run = λ b _. ev }
    where
      report : GateCoordinator host → List GateResult → Action Bus (List GateResult)
      report k results =
          emit_gate_event k.has_bus "GateCompleted" stage_id (completed_payload stage_id results)
          >> pure results
