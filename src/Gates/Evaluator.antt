-- ===== src/Gates/Evaluator.antt =====
-- gates/evaluator.py, without a security enforcer, as the coordinator builds it.
use forge_os.Base.{
  String, Bool, true, false, none, [], ◌∷◌, ◌<>◌, if◌then◌else◌, ◌==◌, nat_beq, not,
}
use forge_os.Host.{
  Host, CommandRun, exited, killed, timed_out, not_run, MetricRead, unreadable, absent, found,
  other,
}
use forge_os.Gates.Model.{GateStatus, Check, ExternalCommandGate, MetricThresholdGate}

module _ (host : Host) where
  command_check : ExternalCommandGate → CommandRun → Check
  command_check gate (exited code out err) = record {
    status = if nat_beq code 0 then GateStatus.passed else GateStatus.failed;
    summary = "Command exited with " <> host.show_nat code;
    fix_hint = none;
    details = ("stdout", out) ∷ ("stderr", err) ∷ [];
  }
  command_check gate (killed signal out err) = record {
    status = GateStatus.failed;
    summary = "Command exited with -" <> host.show_nat signal;
    fix_hint = none;
    details = ("stdout", out) ∷ ("stderr", err) ∷ [];
  }
  command_check gate timed_out = record {
    status = GateStatus.error;
    summary = "Command timed out after " <> (host.show_nat gate.timeout_seconds <> "s");
    fix_hint = none;
    details = [];
  }
  command_check gate (not_run message) = record {
    status = GateStatus.error;
    summary = message;
    fix_hint = none;
    details = [];
  }

  unfoldable pub evaluate_external_command : ExternalCommandGate → Check
  unfolding command_check
  evaluate_external_command gate =
      command_check gate (host.run_command gate.command gate.timeout_seconds)

  -- the comparison of a number; an unknown operator leaves `passed = False`
  unfoldable pub compare_metric : String → host.Num → host.Num → Bool
  compare_metric operator value threshold =
      if operator == ">="
      then host.num_leb threshold value
      else if operator == ">"
      then host.num_ltb threshold value
      else if operator == "<="
      then host.num_leb value threshold
      else if operator == "<"
      then host.num_ltb value threshold
      else if operator == "=="
      then host.num_eqb value threshold
      else false

  -- the operators that raise `TypeError` on a value that is no number
  unfoldable pub is_order : String → Bool
  is_order operator =
      if operator == ">="
      then true
      else if operator == ">"
      then true
      else if operator == "<="
      then true
      else if operator == "<"
      then true
      else false

  verdict : Bool → GateStatus
  verdict true = GateStatus.passed
  verdict false = GateStatus.failed

  metric_summary : MetricThresholdGate host.Num → String → String
  metric_summary gate value =
      "Metric "
      <> (gate.metric_key
          <> (" is "
              <> (value
                  <> (" (Threshold "
                      <> (gate.operator <> (" " <> (host.show_num gate.threshold <> ")")))))))

  bad : String → Check
  bad summary = record {
    status = GateStatus.error;
    summary = summary;
    fix_hint = none;
    details = [];
  }

  metric_check : MetricThresholdGate host.Num → MetricRead host.Num → Check
  unfolding verdict metric_summary bad compare_metric is_order
  metric_check gate (unreadable message) = bad message
  metric_check gate absent =
      bad ("Metric key " <> (gate.metric_key <> (" not found in " <> gate.metric_file)))
  metric_check gate (found v) = record {
    status = verdict (compare_metric gate.operator v gate.threshold);
    summary = metric_summary gate (host.show_num v);
    fix_hint = none;
    details = [];
  }
  metric_check gate (other shown type_name) =
      if is_order gate.operator
      then bad (
          "'"
          <> (gate.operator
              <> ("' not supported between instances of '" <> (type_name <> "' and 'float'"))))
      else record {
        status = GateStatus.failed;
        summary = metric_summary gate shown;
        fix_hint = none;
        details = [];
      }

  unfoldable pub evaluate_metric_threshold : MetricThresholdGate host.Num → Check
  unfolding metric_check bad
  evaluate_metric_threshold gate =
      if not (host.exists gate.metric_file)
      then bad ("Metric file " <> (gate.metric_file <> " not found"))
      else metric_check gate (host.metric gate.metric_file gate.metric_key)
