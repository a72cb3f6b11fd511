-- ===== src/Daemon/State/Kept.antt =====
-- What every call on the daemon's state keeps: at most a hundred alerts, counts that agree.
use forge_os.Base.{
  ◌≤◌, String, Bool, true, false, Option, none, some, List, [], ◌∷◌, ◌++◌, sym, arith,
  if◌then◌else◌, length, ◌==◌,
}
use forge_os.Base.Dict.{Dict, lookup, insert, lookup-insert}
use forge_os.Base.Outcome.{Outcome, after}
use forge_os.Daemon.State.{
  DaemonAlert, DaemonState, DaemonTaskState, DaemonFile, Stored, absent, corrupt, stored,
  max_alerts, repeats, add_alert, load, load_required, save, record_run, record_task_run, task_of,
  RunStatus, ok, error, is_error, load_stored, required, new_task,
}
use forge_os.Daemon.State.Alerts.{answer, add_alert-answer, newest-length}
use mathlib.Core.Path.{subst}

abbrev pub IfTask : (DaemonTaskState → Type 0) → Option DaemonTaskState → Type 0
IfTask P none = Unit
IfTask P (some t) = P t

-- the state has at most `max_alerts` alerts, and no task failed more often than it ran
abbrev pub IsKept : DaemonState → Type 0
IsKept s =
    (length s.alerts ≤ max_alerts)
    × ((name : String) → IfTask (λ t. t.failures ≤ t.runs) (lookup name s.tasks))

-- the same of the state that is stored, if one is
abbrev pub IsKeptFile : Stored → Type 0
IsKeptFile absent = Unit
IsKeptFile corrupt = Unit
IsKeptFile (stored s) = IsKept s

answer-kept :
    (a : DaemonAlert) (s : DaemonState) (b w : Bool)
    → IsKept s
    → IsKeptFile (after (answer a s (record { content = stored s; writable = w }) b w)).content
unfolding answer
answer-kept a s true w k = k
answer-kept a s false false k = k
answer-kept a s false true k = (newest-length (s.alerts ++ a ∷ []), k.1)

missing-kept :
    (a : DaemonAlert) (w : Bool)
    → IsKeptFile (after (add_alert a (record { content = absent; writable = w }))).content
unfolding add_alert load_required load load_stored required
missing-kept a w = tt

corrupt-kept :
    (a : DaemonAlert) (w : Bool)
    → IsKeptFile (after (add_alert a (record { content = corrupt; writable = w }))).content
unfolding add_alert load_required load load_stored required
corrupt-kept a w = tt

add_alert-kept :
    (a : DaemonAlert) (f : DaemonFile)
    → IsKeptFile f.content
    → IsKeptFile (after (add_alert a f)).content
add_alert-kept a f k = go f.content f.writable k
  where
    go :
        (c : Stored) (w : Bool)
        → IsKeptFile c
        → IsKeptFile (after (add_alert a (record { content = c; writable = w }))).content
    go absent w h = missing-kept a w
    go corrupt w h = corrupt-kept a w
    go (stored s) w h =
        subst (λ (o : Outcome DaemonFile DaemonState). IsKeptFile (after o).content)
          (sym (add_alert-answer a s w)) (answer-kept a s (repeats s.alerts a) w h)

record_run-counts :
    (now : String) (status : RunStatus) (message : Option String) (t : DaemonTaskState)
    → t.failures ≤ t.runs
    → (record_run now status message t).failures ≤ (record_run now status message t).runs
unfolding record_run is_error
record_run-counts now ok message t h = omega (arith, h)
record_run-counts now error message t h = omega (arith, h)

task_of-counts :
    (s : DaemonState) (name : String)
    → IfTask (λ t. t.failures ≤ t.runs) (lookup name s.tasks)
    → (task_of s name).failures ≤ (task_of s name).runs
unfolding task_of new_task
task_of-counts s name h = go (lookup name s.tasks) h
  where
    found : Option DaemonTaskState → DaemonTaskState
    found o = elim o [ none ↦ new_task | some t ↦ t ]

    go :
        (o : Option DaemonTaskState)
        → IfTask (λ t. t.failures ≤ t.runs) o
        → (found o).failures ≤ (found o).runs
    go none h' = omega arith
    go (some t) h' = h'

insert-counts :
    (name : String) (t : DaemonTaskState) (d : Dict DaemonTaskState)
    → t.failures ≤ t.runs
    → ((n : String) → IfTask (λ x. x.failures ≤ x.runs) (lookup n d))
    → (n : String) → IfTask (λ x. x.failures ≤ x.runs) (lookup n (insert name t d))
insert-counts name t d h k n =
    subst (IfTask (λ x. x.failures ≤ x.runs)) (sym (lookup-insert name n t d)) (go (name == n))
  where
    go : (b : Bool) → IfTask (λ x. x.failures ≤ x.runs) (if b then some t else lookup n d)
    go true = h
    go false = k n

record_task_run-kept :
    (now name : String) (status : RunStatus) (message : Option String) (f : DaemonFile)
    → IsKeptFile f.content
    → IsKeptFile (after (record_task_run now name status message f)).content
unfolding record_task_run load_required load load_stored required save
record_task_run-kept now name status message f k = go f.content f.writable k
  where
    go :
        (c : Stored) (w : Bool)
        → IsKeptFile c
        → IsKeptFile
            (after (
              record_task_run now name status message
                (record { content = c; writable = w }))).content
    go absent w h = tt
    go corrupt w h = tt
    go (stored s) false h = h
    go (stored s) true h = (
      h.0,
      insert-counts name (record_run now status message (task_of s name)) s.tasks
          (record_run-counts now status message (task_of s name) (task_of-counts s name (h.1 name)))
          h.1,
    )

-- The calls that change the daemon's state while it runs.
pub data StateCall : Type 0 where
  alert : DaemonAlert → StateCall
  task_run : String → String → RunStatus → Option String → StateCall

unfoldable run_call : StateCall → DaemonFile → DaemonFile
run_call (alert a) f = after (add_alert a f)
run_call (task_run now name status message) f = after (record_task_run now name status message f)

unfoldable pub run_state_calls : List StateCall → DaemonFile → DaemonFile
unfolding run_call
run_state_calls [] f = f
run_state_calls (c ∷ cs) f = run_state_calls cs (run_call c f)

-- After any calls, returning or raising, a stored state that had at most a hundred alerts, and no
-- task with more failures than runs, is still so.
pub state_calls-kept :
    (calls : List StateCall) (file : DaemonFile)
    → IsKeptFile file.content
    → IsKeptFile (run_state_calls calls file).content
unfolding run_state_calls run_call
state_calls-kept [] f k = k
state_calls-kept (alert a ∷ cs) f k =
    state_calls-kept cs (after (add_alert a f)) (add_alert-kept a f k)
state_calls-kept (task_run now name status message ∷ cs) f k =
    state_calls-kept cs (after (record_task_run now name status message f))
      (record_task_run-kept now name status message f k)
