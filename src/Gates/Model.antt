-- ===== src/Gates/Model.antt =====
-- gates/models.py. A result's `details` are texts at every place that builds one.
use forge_os.Base.{ℕ, String, Bool, true, false, Option, List}
use forge_os.Base.Dict.{Dict}
use forge_os.Events.Model.{Value}

pub data GateStatus : Type 0 where
  passed failed error warn skipped : GateStatus

pub record GateCriterion (Num : Type 0) : Type 0 where
  pub id : String
  pub name : String
  pub kind : String
  pub stage_id : Option String
  pub severity : String
  pub enabled : Bool
  pub criteria : Dict (Value Num)
  pub timeout_seconds : Option ℕ

pub record GateResult : Type 0 where
  pub gate_id : String
  pub stage_id : Option String
  pub status : GateStatus
  pub summary : String
  pub details : Dict String
  pub started_at : String
  pub finished_at : String
  pub duration_ms : ℕ
  pub blocking : Bool
  pub fix_hint : Option String
  pub metadata : Dict String

pub record ExternalCommandGate : Type 0 where
  pub id : String
  pub name : String
  pub command : List String
  pub timeout_seconds : ℕ
  pub severity : String
  pub enabled : Bool

pub record MetricThresholdGate (Num : Type 0) : Type 0 where
  pub id : String
  pub name : String
  pub metric_file : String
  pub metric_key : String
  pub threshold : Num
  pub operator : String
  pub severity : String
  pub enabled : Bool

-- What one check yields before the severity is taken into account.
pub record Check : Type 0 where
  pub status : GateStatus
  pub summary : String
  pub fix_hint : Option String
  pub details : Dict String

abbrev pub is_failed : GateStatus → Bool
is_failed failed = true
is_failed _ = false

-- `status in {"fail", "error"}`
abbrev pub is_bad : GateStatus → Bool
is_bad failed = true
is_bad error = true
is_bad _ = false
