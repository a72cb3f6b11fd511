-- ===== src/Gates/Coordinator.antt =====
-- gates/coordinator.py: which gates apply to a stage, and what each of them decides.
pub mod Stage
pub mod Verdicts
use forge_os.Base.{
  ℕ, ◌+◌, ◌*◌, String, Bool, true, false, not, ◌&&◌, ◌||◌, Option, none, some, List, [], ◌∷◌, ◌<>◌,
  if◌then◌else◌, ◌==◌, filter, any, length, opt_eq, is_none,
}
use forge_os.Base.Dict.{Dict, lookup}
use forge_os.Base.Sort.{sorted}
use forge_os.Base.Text.{str_leb}
use forge_os.Events.Model.{Value, text, texts, num}
use forge_os.Host.{Host, Attempt, value}
use forge_os.Gates.Model.{
  GateStatus, GateCriterion, GateResult, Check, is_failed, is_bad, ExternalCommandGate,
  MetricThresholdGate,
}
use forge_os.Gates.Evaluator.{evaluate_external_command, evaluate_metric_threshold}

infixl 5 ◌>>=◌
abbrev ◌>>=◌ : {A B : Type 0} → Attempt A → (A → Attempt B) → Attempt B
value a >>= f = f a
Attempt.error e >>= f = Attempt.error e

-- `if status == "fail" and gate.severity in {"warning", "advisory"}`
unfoldable pub downgrade : String → GateStatus → GateStatus
downgrade severity status =
    if is_failed status
    then if severity == "warning"
      then GateStatus.warn
      else if severity == "advisory"
      then GateStatus.skipped
      else status
    else status

module _ (host : Host) where
  -- `gate.enabled and (gate.stage_id is None or gate.stage_id == stage_id)`
  unfoldable pub applies : String → GateCriterion host.Num → Bool
  applies stage_id gate = gate.enabled && (is_none gate.stage_id || opt_eq gate.stage_id stage_id)

  abbrev pub gate_leb : GateCriterion host.Num → GateCriterion host.Num → Bool
  gate_leb a b = str_leb a.id b.id

  unfoldable pub gates_for_stage :
      List (GateCriterion host.Num) → String → List (GateCriterion host.Num)
  unfolding applies
  gates_for_stage gates stage_id = sorted gate_leb (filter (applies stage_id) gates)

  abbrev result : GateStatus → String → Option String → Dict String → Attempt Check
  result status summary fix_hint details =
      value (record { status = status; summary = summary; fix_hint = fix_hint; details = details })

  -- `isinstance(v, str) and v.strip()`: the text, if it is one and is not blank
  path_of : Option (Value host.Num) → Option String
  path_of (some (text s)) = if host.strip s == "" then none else some s
  path_of _ = none

  -- `isinstance(v, str) and v`
  pattern_of : Option (Value host.Num) → Option String
  pattern_of (some (text s)) = if s == "" then none else some s
  pattern_of _ = none

  required_file_at : Option String → GateCriterion host.Num → Attempt Check
  required_file_at none gate =
      result GateStatus.error ("Gate `" <> (gate.id <> "` requires criteria.path.")) none []
  required_file_at (some path) gate =
      if host.is_file path
      then result GateStatus.passed ("Required file exists: " <> path) none (("path", path) ∷ [])
      else result GateStatus.failed ("Required file is missing: " <> path)
          (some ("Create `" <> (path <> "` before completing this stage."))) (("path", path) ∷ [])

  unfoldable pub check_required_file : GateCriterion host.Num → Attempt Check
  unfolding required_file_at path_of
  check_required_file gate = required_file_at (path_of (lookup "path" gate.criteria)) gate

  found_check : String → String → Bool → Attempt Check
  found_check path pattern true =
      result GateStatus.passed ("Pattern `" <> (pattern <> ("` found in " <> path))) none
        (("path", path) ∷ ("pattern", pattern) ∷ [])
  found_check path pattern false =
      result GateStatus.failed ("Pattern `" <> (pattern <> ("` not found in " <> path)))
        (some ("Update `" <> (path <> ("` so it matches `" <> (pattern <> "`.")))))
        (("path", path) ∷ ("pattern", pattern) ∷ [])

  pattern_at : Option String → Option String → GateCriterion host.Num → Attempt Check
  unfolding found_check
  pattern_at none _ gate =
      result GateStatus.error ("Gate `" <> (gate.id <> "` requires criteria.path.")) none []
  pattern_at (some path) none gate =
      result GateStatus.error ("Gate `" <> (gate.id <> "` requires criteria.pattern.")) none []
  pattern_at (some path) (some pattern) gate =
      if host.is_file path
      then (do
        content ← host.read_text path
        found ← host.search pattern content
        found_check path pattern found)
      else result GateStatus.failed ("Pattern file is missing: " <> path)
          (some ("Create `" <> (path <> ("` and include pattern `" <> (pattern <> "`.")))))
          (("path", path) ∷ ("pattern", pattern) ∷ [])

  unfoldable pub check_pattern : GateCriterion host.Num → Attempt Check
  unfolding pattern_at path_of pattern_of
  check_pattern gate =
      pattern_at (path_of (lookup "path" gate.criteria))
        (pattern_of (lookup "pattern" gate.criteria)) gate

  -- `gate.criteria.get(key, default)`
  criterion : GateCriterion host.Num → String → Value host.Num → Value host.Num
  criterion gate key default = elim (lookup key gate.criteria) [ none ↦ default | some v ↦ v ]

  unfoldable pub check_command : GateCriterion host.Num → Attempt Check
  unfolding criterion
  check_command gate = do
    command ← host.as_texts (criterion gate "command" (texts []))
    timeout ← elim (lookup "timeout" gate.criteria) [ none ↦ value 30 | some v ↦ host.as_nat v ]
    value (
        evaluate_external_command host (record {
          id = gate.id;
          name = gate.name;
          command = command;
          timeout_seconds = timeout;
          severity = gate.severity;
          enabled = gate.enabled;
        }))

  -- The checks of a metric gate's result keep no details.
  unfoldable pub check_metric : GateCriterion host.Num → Attempt Check
  unfolding criterion
  check_metric gate = do
    metric_file ← host.as_text (criterion gate "metric_file" (text ""))
    metric_key ← host.as_text (criterion gate "metric_key" (text ""))
    threshold ← host.as_float (criterion gate "threshold" (num (host.literal "0.0")))
    operator ← host.as_text (criterion gate "operator" (text ">="))
    value (
        evaluate_metric_threshold host (record {
          id = gate.id;
          name = gate.name;
          metric_file = metric_file;
          metric_key = metric_key;
          threshold = threshold;
          operator = operator;
          severity = gate.severity;
          enabled = gate.enabled;
        }))

  -- the `if`/`elif` over the gate's type
  unfoldable pub attempt_gate : GateCriterion host.Num → Attempt Check
  attempt_gate gate =
      if gate.kind == "required_file"
      then check_required_file gate
      else if gate.kind == "pattern"
      then check_pattern gate
      else if gate.kind == "external_command"
      then check_command gate
      else if gate.kind == "metric_threshold"
      then check_metric gate
      else result GateStatus.error ("Unsupported gate type `" <> (gate.kind <> "`."))
          (some "Use: required_file, pattern, external_command, or metric_threshold.") []

  -- `except Exception`
  recovered : GateCriterion host.Num → Attempt Check → Check
  recovered gate (value c) = c
  recovered gate (Attempt.error e) = record {
    status = GateStatus.error;
    summary = "Gate `" <> (gate.id <> ("` errored: " <> e));
    fix_hint = some "Inspect the gate criteria and project files.";
    details = ("error", e) ∷ [];
  }

  -- what the check of a gate says before its severity counts
  unfoldable pub raw_check : GateCriterion host.Num → Check
  unfolding recovered
  raw_check gate = recovered gate (attempt_gate gate)

  -- the `tick` is the number of clock readings so far; a gate reads the clock twice
  unfoldable pub evaluate_gate : GateCriterion host.Num → ℕ → GateResult
  unfolding downgrade raw_check
  evaluate_gate gate tick =
      let status = downgrade gate.severity (raw_check gate).status in
      record {
        gate_id = gate.id;
        stage_id = gate.stage_id;
        status = status;
        summary = (raw_check gate).summary;
        details = (raw_check gate).details;
        started_at = host.utc_now tick;
        finished_at = host.utc_now (tick + 1);
        duration_ms = host.elapsed_ms tick;
        blocking = is_bad status && (gate.severity == "blocking");
        fix_hint = (raw_check gate).fix_hint;
        metadata = ("severity", gate.severity) ∷ ("type", gate.kind) ∷ [];
      }

  unfoldable pub evaluate_gates : List (GateCriterion host.Num) → ℕ → List GateResult
  evaluate_gates [] tick = []
  evaluate_gates (gate ∷ gates) tick = evaluate_gate gate tick ∷ evaluate_gates gates (tick + 2)

unfoldable pub has_blocking_failures : List GateResult → Bool
has_blocking_failures results = any (λ r. r.blocking) results
