-- ===== src/Daemon/Scheduler.antt =====
-- daemon/scheduler.py: tasks at fixed delays. Times are counted in the clock's units from zero.
pub mod Delays
use forge_os.Base.{
  ℕ, ◌+◌, String, Bool, true, false, ◌&&◌, Option, none, some, List, [], ◌∷◌, ◌++◌, if◌then◌else◌,
  ltb,
}
use forge_os.Base.Dict.{Dict, lookup, insert}

-- What becomes of a task's call.
pub data TaskResult : Type 0 where
  returned : Dict String → TaskResult
  failed : String → TaskResult

-- A task. What its call gives may depend on the time.
pub record ScheduledTask : Type 0 where
  pub name : String
  pub interval_seconds : ℕ
  pub run : ℕ → TaskResult

-- The due times, the names that ran, and what `on_result` and `on_error` were told. A callback that
-- raises is logged and changes nothing, so that its outcome is no part of this.
pub record Runner : Type 0 where
  pub next_due : Dict ℕ
  pub ran : List String
  pub notices : List (String × TaskResult)

-- `due_at is not None and current < due_at`
unfoldable pub is_waiting : Dict ℕ → String → ℕ → Bool
is_waiting next_due name now = elim (lookup name next_due) [ none ↦ false | some due ↦ ltb now due ]

unfoldable pub run_task : ℕ → ScheduledTask → Runner → Runner
run_task now task r = record {
  next_due = insert task.name (now + task.interval_seconds) r.next_due;
  ran = r.ran ++ task.name ∷ [];
  notices = r.notices ++ (task.name, task.run now) ∷ [];
}

-- the loop of `run_pending`
unfoldable pub run_tasks : ℕ → List ScheduledTask → Runner → Runner
run_tasks now [] r = r
run_tasks now (task ∷ tasks) r =
    run_tasks now tasks (if is_waiting r.next_due task.name now then r else run_task now task r)

-- `run_pending`: the due times after it, the names that ran and the notices
unfoldable pub run_pending : List ScheduledTask → ℕ → Dict ℕ → Runner
unfolding run_tasks
run_pending tasks now next_due =
    run_tasks now tasks (record { next_due = next_due; ran = []; notices = [] })

-- One round of `run_forever`: whether the stop event is set before it, the time of its round, and
-- whether the event is set after it.
pub record Round : Type 0 where
  pub stopped_before : Bool
  pub now : ℕ
  pub stopped_after : Bool

-- the loop of `run_forever`, over the rounds that the environment brings: the names that ran
unfoldable pub run_forever : List ScheduledTask → List Round → Dict ℕ → List (List String)
unfolding run_pending
run_forever tasks [] next_due = []
run_forever tasks (round ∷ rounds) next_due =
    let r = run_pending tasks round.now next_due in
    let rest = run_forever tasks rounds r.next_due in
    if round.stopped_before then [] else if round.stopped_after then r.ran ∷ [] else r.ran ∷ rest
