-- ===== src/Gates/Coordinator/Verdicts.antt =====
-- Which gates are evaluated for a stage, and when a stage is blocked.
use mathlib.Core.List.{Perm}
use forge_os.Base.{
  ℕ, ◌+◌, String, Bool, ◌≡◌, ◌↔◌, refl, true, List, [], ◌∷◌, filter, any, arith, ◌==◌, any-filter,
  ◌∙◌, eq_iff, ◌&&◌, ◌||◌, if◌then◌else◌, is_none, opt_eq,
}
use forge_os.Base.Sort.{
  Order, Pairwise, IsSorted-Pairwise, sorted, sorted-IsSorted, sorted-perm, any-sorted,
  filter-sorted,
}
use forge_os.Base.Text.{str_leb, str_leb_total, str_leb_trans}
use forge_os.Host.{Host}
use forge_os.Gates.Model.{GateStatus, GateCriterion, is_bad, is_failed}
use forge_os.Gates.Coordinator.{
  applies, gate_leb, gates_for_stage, raw_check, downgrade, evaluate_gate, evaluate_gates,
  has_blocking_failures,
}

downgrade_blocks :
    (severity : String) (s : GateStatus)
    → ((is_bad (downgrade severity s) && (severity == "blocking")) ≡ true)
      ↔ ((severity ≡ "blocking") × (is_bad s ≡ true))
unfolding downgrade
downgrade_blocks severity s = ground (
  arith,
  eq_iff severity "blocking",
  eq_iff severity "warning",
  eq_iff severity "advisory",
  eq_iff "blocking" "warning",
  eq_iff "blocking" "advisory",
)

downgrade_lem :
    (severity : String) (s : GateStatus)
    → downgrade severity s ≡ (
        if is_failed s && (severity == "warning")
        then GateStatus.warn
        else if is_failed s && (severity == "advisory")
        then GateStatus.skipped
        else s)
unfolding downgrade
downgrade_lem severity s = ground arith

module _ (host : Host) where
  gate_order : Order (GateCriterion host.Num)
  gate_order = record {
    leb = gate_leb host;
    total = λ a b. str_leb_total a.id b.id;
    trans = λ a b c. str_leb_trans a.id b.id c.id;
  }

  -- The gates evaluated for a stage are those of the gate file that are enabled and that name the
  -- stage or no stage, each once for each of its entries, in ascending order of their identifiers;
  -- those of one identifier stand as in the file.
  pub gates_for_stage-IsSorted :
      (gates : List (GateCriterion host.Num)) (stage_id id : String)
      → Pairwise (λ a b. str_leb a.id b.id ≡ true) (gates_for_stage host gates stage_id)
        × Perm
            (gates_for_stage host gates stage_id)
            (filter (λ g. g.enabled && (is_none g.stage_id || opt_eq g.stage_id stage_id)) gates)
        × (filter (λ g. g.id == id) (gates_for_stage host gates stage_id)
            ≡ filter
                (λ g. g.id == id)
                (filter
                  (λ g. g.enabled && (is_none g.stage_id || opt_eq g.stage_id stage_id))
                  gates))
  unfolding gates_for_stage gate_order applies
  gates_for_stage-IsSorted gates stage_id id = (
    IsSorted-Pairwise (gate_leb host) (λ a b. str_leb a.id b.id ≡ true) (λ a b h. h)
        (sorted (gate_leb host) (filter (applies host stage_id) gates))
        (sorted-IsSorted gate_order (filter (applies host stage_id) gates)),
    sorted-perm (gate_leb host) (filter (applies host stage_id) gates),
    filter-sorted (gate_leb host) (λ g. g.id == id)
        (λ a b h k. ground (arith, h, k, eq_iff a.id id, eq_iff b.id id, str_leb_total a.id b.id))
        (filter (applies host stage_id) gates),
  )

  -- A gate blocks exactly when its severity is "blocking" and its check failed or errored; a failed
  -- check of severity "warning" is reported as a warning, one of severity "advisory" as skipped, and
  -- an error, or the outcome of any other severity, is reported as it is.
  pub evaluate_gate_severity :
      (gate : GateCriterion host.Num) (tick : ℕ)
      → (((evaluate_gate host gate tick).blocking ≡ true)
          ↔ ((gate.severity ≡ "blocking") × (is_bad (raw_check host gate).status ≡ true)))
        × ((evaluate_gate host gate tick).status ≡ (
            if is_failed (raw_check host gate).status && (gate.severity == "warning")
            then GateStatus.warn
            else if is_failed (raw_check host gate).status && (gate.severity == "advisory")
            then GateStatus.skipped
            else (raw_check host gate).status))
  unfolding evaluate_gate
  evaluate_gate_severity gate tick = (
    downgrade_blocks gate.severity (raw_check host gate).status,
    downgrade_lem gate.severity (raw_check host gate).status,
  )

  -- the gate's check failed or errored, and its severity lets that block
  abbrev pub is_blocking : GateCriterion host.Num → Bool
  is_blocking gate = (gate.severity == "blocking") && is_bad (raw_check host gate).status

  blocking_lem :
      (gate : GateCriterion host.Num) (tick : ℕ)
      → (evaluate_gate host gate tick).blocking ≡ is_blocking gate
  blocking_lem gate tick =
      ground (arith, (evaluate_gate_severity gate tick).0, eq_iff gate.severity "blocking")

  blocking_gates :
      (gates : List (GateCriterion host.Num)) (tick : ℕ)
      → has_blocking_failures (evaluate_gates host gates tick) ≡ any is_blocking gates
  unfolding evaluate_gates has_blocking_failures
  blocking_gates [] tick = refl
  blocking_gates (g ∷ gs) tick = rw (blocking_lem g tick, blocking_gates gs (tick + 2))

  -- A stage is blocked exactly when some gate of the file that is enabled, names the stage or no
  -- stage, and has the severity "blocking", has a check that failed or errored.
  pub stage_blocked :
      (gates : List (GateCriterion host.Num)) (stage_id : String) (tick : ℕ)
      → has_blocking_failures (evaluate_gates host (gates_for_stage host gates stage_id) tick)
        ≡ any (λ g. applies host stage_id g && is_blocking g) gates
  stage_blocked gates stage_id tick =
      blocking_gates (gates_for_stage host gates stage_id) tick
      ∙ unfold gates_for_stage in
        (any-sorted is_blocking (gate_leb host) (filter (applies host stage_id) gates)
          ∙ any-filter (applies host stage_id) is_blocking gates)
