-- ===== src/Tests/Sample.antt =====
-- A host and a project for the tests.
use forge_os.Base.{
  false, ℕ, ◌+◌, ◌*◌, String, Bool, true, none, some, List, [], ◌∷◌, ltb, leb, nat_beq,
}
use forge_os.Host.{Host, exited, absent, value, error, emptied}
use forge_os.Events.Hooks.{RegisteredHook, HandlerRun, returns}
use forge_os.Events.Store.{empty_db}
use forge_os.Gates.Model.{GateCriterion}
use forge_os.Pipeline.State.{PipelineState, StageState, StageStatus, not_started}
use forge_os.Memory.Lessons.{missing}
use forge_os.Pipeline.World.{World}

-- Numbers are natural numbers, every file is there and empty, and every command succeeds.
abbrev pub sample_host : Host
sample_host = record {
  Num = ℕ;
  num_leb = leb;
  num_ltb = ltb;
  num_eqb = nat_beq;
  show_num = λ n. "n";
  as_double = λ n. n;
  num_add = λ m n. m + n;
  num_mul = λ m n. m * n;
  num_div = λ m n. m;
  show_whole = λ n. "n";
  half_power = λ n. n;
  round = λ n digits. n;
  is_finite = λ n. true;
  literal = λ text. 0;
  Moment = ℕ;
  from_iso = λ text. value 0;
  total_seconds = λ later earlier. value later;
  replace = λ text old new. text;
  utc_now = λ n. "now";
  uuid = λ n. "uuid";
  elapsed_ms = λ n. n;
  is_file = λ path. true;
  exists = λ path. true;
  read_text = λ path. value "text";
  writable = λ path. true;
  failed_write = λ path. emptied;
  content_hash = λ path. "hash";
  modified_at = λ path. "t1";
  decoded = λ path. "text";
  search = λ pattern text. value true;
  run_command = λ command timeout. exited 0 "" "";
  metric = λ path key. absent;
  strip = λ text. "text";
  lower = λ text. text;
  upper = λ text. text;
  show_nat = λ n. "n";
  show_list = λ texts. "[]";
  as_texts = λ v. error "not texts";
  as_nat = λ v. error "not a number";
  as_float = λ v. error "not a number";
  as_text = λ v. error "not a text";
}

abbrev pub sample_stage : String → StageStatus → StageState
sample_stage name status = record {
  stage_id = name;
  status = status;
  entered_at = none;
  completed_at = none;
  blocked_reason = none;
  artifacts = [];
}

abbrev pub sample_state : PipelineState
sample_state = record {
  schema_version = "0.1";
  project_id = "demo";
  profile = "cli";
  current_stage_id = none;
  stages = sample_stage "srs" not_started ∷ sample_stage "design" not_started ∷ [];
  gates = [];
  last_event_id = none;
  created_at = "t0";
  updated_at = "t0";
  metadata = [];
}

-- a gate whose kind is unknown, so that its check is an error
abbrev pub sample_gate : String → GateCriterion ℕ
sample_gate severity = record {
  id = "tests";
  name = "Tests pass";
  kind = "unknown";
  stage_id = some "srs";
  severity = severity;
  enabled = true;
  criteria = [];
  timeout_seconds = none;
}

abbrev pub sample_hook : String → ℕ → HandlerRun → Bool → RegisteredHook
sample_hook name order result blocking = record {
  event_type = "stage_enter";
  name = name;
  handler = λ event. result;
  order = order;
  timeout_seconds = 5;
  blocking = blocking;
}

abbrev pub sample_world : List (GateCriterion ℕ) → World sample_host
sample_world gates = record {
  state_file = some sample_state;
  markdown = "";
  config = some (record { name = "demo"; profile = "cli" });
  gate_file = some gates;
  bus = record {
    log = [];
    timings = [];
    hooks = sample_hook "log" 1 (returns 3) false ∷ [];
    ticks = 0;
  };
  event_db = empty_db;
  db_works = true;
  memory = record { lessons = missing; reflections = [] };
}
