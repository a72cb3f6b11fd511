-- ===== src/Tests/GateTests.antt =====
-- The gates' theorems at a gate file with one blocking gate.
use mathlib.Core.List.{Perm}
use forge_os.Base.{ℕ, true, List, [], ◌∷◌, ◌≡◌, ◌↔◌, any, ◌&&◌, filter, if◌then◌else◌, ◌==◌}
use forge_os.Base.Sort.{Pairwise}
use forge_os.Base.Text.{str_leb}
use forge_os.Base.{◌||◌, is_none, opt_eq}
use forge_os.Gates.Model.{GateCriterion, GateStatus, is_bad, is_failed}
use forge_os.Gates.Coordinator.{
  applies, gates_for_stage, raw_check, evaluate_gate, evaluate_gates, has_blocking_failures,
}
use forge_os.Gates.Coordinator.Verdicts.{
  is_blocking, stage_blocked, evaluate_gate_severity, gates_for_stage-IsSorted,
}
use forge_os.Tests.Sample.{sample_host, sample_gate}

abbrev sample_gates : List (GateCriterion ℕ)
sample_gates = sample_gate "blocking" ∷ sample_gate "warning" ∷ []

stage_blocked_example :
    has_blocking_failures
      (evaluate_gates sample_host (gates_for_stage sample_host sample_gates "srs") 0)
    ≡ any (λ g. applies sample_host "srs" g && is_blocking sample_host g) sample_gates
stage_blocked_example = stage_blocked sample_host sample_gates "srs" 0

evaluate_gate_severity_example :
    (((evaluate_gate sample_host (sample_gate "blocking") 0).blocking ≡ true) ↔ (
      ((sample_gate "blocking").severity ≡ "blocking")
      × (is_bad (raw_check sample_host (sample_gate "blocking")).status ≡ true)))
    × ((evaluate_gate sample_host (sample_gate "blocking") 0).status ≡ (
        if is_failed (raw_check sample_host (sample_gate "blocking")).status
          && ((sample_gate "blocking").severity == "warning")
        then GateStatus.warn
        else if is_failed (raw_check sample_host (sample_gate "blocking")).status
            && ((sample_gate "blocking").severity == "advisory")
        then GateStatus.skipped
        else (raw_check sample_host (sample_gate "blocking")).status))
evaluate_gate_severity_example = evaluate_gate_severity sample_host (sample_gate "blocking") 0

gates_for_stage-IsSorted_example :
    Pairwise (λ a b. str_leb a.id b.id ≡ true) (gates_for_stage sample_host sample_gates "srs")
    × Perm
        (gates_for_stage sample_host sample_gates "srs")
        (filter (λ g. g.enabled && (is_none g.stage_id || opt_eq g.stage_id "srs")) sample_gates)
    × (filter (λ g. g.id == "tests") (gates_for_stage sample_host sample_gates "srs")
        ≡ filter
            (λ g. g.id == "tests")
            (filter
              (λ g. g.enabled && (is_none g.stage_id || opt_eq g.stage_id "srs"))
              sample_gates))
gates_for_stage-IsSorted_example = gates_for_stage-IsSorted sample_host sample_gates "srs" "tests"
