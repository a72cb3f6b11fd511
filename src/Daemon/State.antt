-- ===== src/Daemon/State.antt =====
-- daemon/state.py and schemas/daemon.py: the state file of the daemon.
pub mod Alerts
pub mod Kept
use forge_os.Base.{
  ℕ, zero, suc, ◌+◌, ◌-◌, String, Bool, true, false, ◌&&◌, Option, none, some, List, [], ◌∷◌, ◌++◌,
  if◌then◌else◌, ◌==◌, length, ltb,
}
use forge_os.Base.Dict.{Dict, lookup, insert}
use forge_os.Base.Outcome.{Action, Outcome, done, raised, raise, pure, daemon_error, ◌>>=◌, ◌>>◌}

pub data RunStatus : Type 0 where
  ok error : RunStatus

pub data Severity : Type 0 where
  info warning critical : Severity

pub record DaemonTaskState : Type 0 where
  pub last_run_at : Option String
  pub last_status : Option RunStatus
  pub runs : ℕ
  pub failures : ℕ
  pub last_error : Option String

-- the entries of an alert's metadata that its program text builds, as texts
pub record DaemonAlert : Type 0 where
  pub alert_id : String
  pub created_at : String
  pub source : String
  pub severity : Severity
  pub message : String
  pub metadata : Dict String

pub record DaemonState : Type 0 where
  pub daemon_id : String
  pub pid : ℕ
  pub project_root : String
  pub started_at : String
  pub last_heartbeat : Option String
  pub tasks : Dict DaemonTaskState
  pub alerts : List DaemonAlert

-- `daemon/state.json`: not there, corrupt, or a state. `writable` tells whether a write succeeds.
pub data Stored : Type 0 where
  absent corrupt : Stored
  stored : DaemonState → Stored

pub record DaemonFile : Type 0 where
  pub content : Stored
  pub writable : Bool

abbrev pub max_alerts : ℕ
max_alerts = 100

abbrev pub Daemon : Type 0 → Type 0
Daemon A = Action DaemonFile A

load_stored : Stored → Daemon (Option DaemonState)
load_stored absent = pure none
load_stored corrupt = raise daemon_error
load_stored (stored s) = pure (some s)

unfoldable pub load : Daemon (Option DaemonState)
unfolding load_stored
load file = load_stored file.content file

unfoldable pub save : DaemonState → Daemon (Unit {0})
save s file =
    if file.writable then done tt (record file { content = stored s }) else raised daemon_error file

unfoldable pub clear : Daemon (Unit {0})
clear file = done tt (record file { content = absent })

required : Option DaemonState → Daemon DaemonState
required none = raise daemon_error
required (some s) = pure s

unfoldable pub load_required : Daemon DaemonState
unfolding load required
load_required = do found ← load; required found

abbrev severity_eq : Severity → Severity → Bool
severity_eq info info = true
severity_eq warning warning = true
severity_eq critical critical = true
severity_eq _ _ = false

-- same source, severity and message
unfoldable pub is_repeat : DaemonAlert → DaemonAlert → Bool
is_repeat last alert =
    (last.source == alert.source)
    && (severity_eq last.severity alert.severity && (last.message == alert.message))

-- whether the last alert, if there is one, is the same
unfoldable pub repeats : List DaemonAlert → DaemonAlert → Bool
unfolding is_repeat
repeats [] alert = false
repeats (a ∷ []) alert = is_repeat a alert
repeats (a ∷ b ∷ rest) alert = repeats (b ∷ rest) alert

abbrev drop : ℕ → List DaemonAlert → List DaemonAlert
drop zero alerts = alerts
drop (suc n) [] = []
drop (suc n) (a ∷ rest) = drop n rest

-- `combined[-MAX_ALERTS:]`
unfoldable pub newest : List DaemonAlert → List DaemonAlert
newest alerts = drop (length alerts - max_alerts) alerts

unfoldable pub add_alert : DaemonAlert → Daemon DaemonState
unfolding load_required save repeats newest
add_alert alert = do
  s ← load_required
  if repeats s.alerts alert
      then pure s
      else (do let s' = record s { alerts = newest (s.alerts ++ alert ∷ []) }; save s'; pure s')

new_task : DaemonTaskState
new_task = record {
  last_run_at = none;
  last_status = none;
  runs = 0;
  failures = 0;
  last_error = none;
}

is_error : RunStatus → Bool
is_error ok = false
is_error error = true

unfoldable pub record_run : String → RunStatus → Option String → DaemonTaskState → DaemonTaskState
unfolding is_error
record_run now status message t =
    if is_error status
    then record t {
      last_run_at = some now;
      last_status = some status;
      runs = t.runs + 1;
      failures = t.failures + 1;
      last_error = message;
    }
    else record t { last_run_at = some now; last_status = some status; runs = t.runs + 1 }

unfoldable pub task_of : DaemonState → String → DaemonTaskState
unfolding new_task
task_of s name = elim (lookup name s.tasks) [ none ↦ new_task | some t ↦ t ]

unfoldable pub record_task_run : String → String → RunStatus → Option String → Daemon (Unit {0})
unfolding load_required save record_run task_of
record_task_run now name status message = do
  s ← load_required
  save (record s { tasks = insert name (record_run now status message (task_of s name)) s.tasks })
