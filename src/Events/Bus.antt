-- ===== src/Events/Bus.antt =====
-- events/bus.py and the sink of hooks/timing.py. An emitted event is in the log before any hook runs.
use forge_os.Base.{ℕ, String, List, [], ◌∷◌, ◌++◌, map}
use forge_os.Base.Outcome.{Action, done, raised, runtime_error}
use forge_os.Events.Model.{LifecycleEvent}
use forge_os.Events.Hooks.{RegisteredHook, HookResult, HookStatus, HookRun, finished, blocked, run}

pub record HookTiming : Type 0 where
  pub event_type : String
  pub hook_name : String
  pub status : HookStatus
  pub duration_ms : ℕ

-- `.forge/events.jsonl`, `.forge/hook-timings.jsonl`, the registry, and how often the clock and the
-- source of identifiers have been read
pub record Bus : Type 0 where
  pub log : List LifecycleEvent
  pub timings : List HookTiming
  pub hooks : List RegisteredHook
  pub ticks : ℕ

timing_of : String → HookResult → HookTiming
timing_of event_type r = record {
  event_type = event_type;
  hook_name = r.hook_name;
  status = r.status;
  duration_ms = r.duration_ms;
}

unfoldable pub record_timings : String → List HookResult → Bus → Bus
unfolding timing_of
record_timings event_type results b = record b {
  timings = b.timings ++ map (timing_of event_type) results;
}

abbrev pub dispatch : String → HookRun → Action Bus (List HookResult)
dispatch event_type (finished results) b = done results (record_timings event_type results b)
dispatch event_type (blocked message) b = raised (runtime_error message) b

unfoldable pub append_event : LifecycleEvent → Bus → Bus
append_event event b = record b { log = b.log ++ event ∷ [] }

unfoldable pub emit : LifecycleEvent → Action Bus (List HookResult)
unfolding append_event
emit event b = dispatch event.event_type (run b.hooks event) (append_event event b)
