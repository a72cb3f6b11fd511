-- ===== src/Tests/DaemonTests.antt =====
-- The daemon's, the cost's and the lessons' theorems at small values.
use mathlib.Core.List.{Perm}
use forge_os.Base.{
  take, ℕ, ◌+◌, ◌≤◌, true, false, not, none, some, List, [], ◌∷◌, ◌≡◌, refl, arith, All, filter,
  length,
}
use forge_os.Base.Dict.{lookup}
use forge_os.Base.Outcome.{done, after}
use forge_os.Events.Model.{num, null}
use forge_os.Cost.{
  completed, unreadable_db, SpawnPayload, undecodable, spawn, totals, enforced_cap, check,
}
use forge_os.Cost.Totals.{totals_exact, rounded_sum, sum_from, costs, decodable}
use forge_os.Daemon.State.{DaemonFile, DaemonAlert, stored, warning, add_alert, error}
use forge_os.Daemon.State.Alerts.{add_alert-twice}
use forge_os.Daemon.State.Kept.{
  IsKeptFile, StateCall, alert, task_run, run_state_calls, state_calls-kept,
}
use forge_os.Daemon.Scheduler.{
  ScheduledTask, returned, failed, Runner, is_waiting, run_tasks, run_pending,
}
use forge_os.Daemon.Scheduler.Delays.{
  task_names, due_tasks, waits_after, run_pending-due, fixed_delay,
}
use forge_os.Daemon.Throttle.{evaluate, gated, skipped, store_unreadable}
use forge_os.Daemon.Throttle.Control.{throttled-eq-unhealthy, gated_fails_closed}
use forge_os.Memory.Lessons.{Lesson, approved_for_context, approved, manual, document}
use forge_os.Memory.Lessons.Context.{is_eligible, context_lessons_are_approved}
use forge_os.Tests.Sample.{sample_host}

abbrev sample_tasks : List ScheduledTask
sample_tasks =
    record { name = "decay"; interval_seconds = 60; run = λ now. failed "boom" }
    ∷ record { name = "health"; interval_seconds = 10; run = λ now. returned [] }
    ∷ []

run_pending-due_example :
    (run_pending sample_tasks 100 (("decay", 130) ∷ [])).ran
    ≡ task_names (due_tasks (("decay", 130) ∷ []) 100 sample_tasks)
run_pending-due_example = run_pending-due sample_tasks 100 (("decay", 130) ∷ []) (refl, (refl, tt))

abbrev sample_runner : Runner
sample_runner = record { next_due = ("decay", 130) ∷ []; ran = []; notices = [] }

fixed_delay_example :
    All
      (λ t.
        is_waiting (run_tasks 100 sample_tasks sample_runner).next_due t.name 105
        ≡ waits_after sample_runner.next_due 100 105 t)
      sample_tasks
fixed_delay_example = fixed_delay 100 105 sample_tasks sample_runner (refl, (refl, tt))

abbrev sample_alert : DaemonAlert
sample_alert = record {
  alert_id = "a1";
  created_at = "t1";
  source = "cost-throttle";
  severity = warning;
  message = "over the cap";
  metadata = [];
}

abbrev sample_file : DaemonFile
sample_file = record {
  content = stored (record {
    daemon_id = "d1";
    pid = 7;
    project_root = "/p";
    started_at = "t0";
    last_heartbeat = none;
    tasks = [];
    alerts = [];
  });
  writable = true;
}

abbrev sample_calls : List StateCall
sample_calls =
    alert sample_alert ∷ task_run "t2" "decay" error (some "boom") ∷ alert sample_alert ∷ []

state_calls-kept_example : IsKeptFile (run_state_calls sample_calls sample_file).content
unfolding lookup
state_calls-kept_example = state_calls-kept sample_calls sample_file (omega arith, λ name. tt)

throttled-eq-unhealthy_example :
    (evaluate sample_host (some 5) unreadable_db).throttled
    ≡ not (check sample_host (some 5) unreadable_db).healthy
throttled-eq-unhealthy_example =
    throttled-eq-unhealthy sample_host
      (record { trans = λ a b c h k. ground (arith, h, k); ratio_below_one = refl }) (some 5)
      unreadable_db

sample_cap_enforced : enforced_cap sample_host (some 5) ≡ some 5
unfolding enforced_cap
sample_cap_enforced = refl

gated_fails_closed_example :
    gated sample_host (λ (n : ℕ). (n + 1, n)) (some 5) unreadable_db "u" "t1" "decay" 3 sample_file
    ≡ (
      3,
      after (
          add_alert
            (record {
              alert_id = "u";
              created_at = "t1";
              source = "cost-throttle";
              severity = warning;
              message =
                  "Recorded spend is unreadable (corrupt events.db); throttling daemon maintenance as a precaution until spend can be metered.";
              metadata =
                  ("task", "decay")
                  ∷ ("reason", "store_unreadable")
                  ∷ ("spent_usd", "n")
                  ∷ ("cost_cap_usd", "n")
                  ∷ ("ratio", "None")
                  ∷ [];
            })
            sample_file),
      skipped "decay" (record {
        throttled = true;
        spent_usd = 0;
        cost_cap_usd = some 5;
        ratio = none;
        reason = some store_unreadable;
      }),
    )
gated_fails_closed_example =
    gated_fails_closed sample_host (λ (n : ℕ). (n + 1, n)) (some 5) 5 "u" "t1" "decay" 3 sample_file
      sample_cap_enforced

abbrev sample_spawns : List (SpawnPayload ℕ)
sample_spawns = spawn (num 3) ∷ undecodable ∷ spawn null ∷ spawn (num 4) ∷ []

totals_exact_example :
    ((totals sample_host (completed sample_spawns)).total_cost_usd
      ≡ rounded_sum sample_host (sum_from sample_host none (costs sample_host sample_spawns)))
    × ((totals sample_host (completed sample_spawns)).priced_spawns
        ≡ length (costs sample_host sample_spawns))
    × ((totals sample_host (completed sample_spawns)).total_spawns
        ≡ decodable sample_host sample_spawns)
    × (length (costs sample_host sample_spawns) ≤ decodable sample_host sample_spawns)
totals_exact_example = totals_exact sample_host sample_spawns

abbrev sample_lesson : Lesson ℕ
sample_lesson = record {
  id = "lesson-1";
  text = "write tests first";
  status = approved;
  confidence = 5;
  tags = [];
  stage_id = none;
  source = manual;
  created_at = "t0";
  updated_at = "t0";
  approved_at = some "t0";
  deprecated_at = none;
  last_used_at = none;
  use_count = 0;
  dormant = false;
  dormant_at = none;
  metadata = [];
}

context_lessons_are_approved_example :
    (ordered : List (Lesson ℕ)) × (approved_for_context sample_host
        (some "srs")
        3
        2
        (document (sample_lesson ∷ []))
      ≡ done (take 2 ordered) (document (sample_lesson ∷ [])))
    × Perm ordered (filter (is_eligible sample_host (some "srs") 3) (sample_lesson ∷ []))
context_lessons_are_approved_example =
    context_lessons_are_approved sample_host (some "srs") 3 2 (sample_lesson ∷ [])

add_alert-twice_example :
    add_alert sample_alert (after (add_alert sample_alert sample_file))
    ≡ add_alert sample_alert sample_file
add_alert-twice_example = add_alert-twice sample_alert sample_file
