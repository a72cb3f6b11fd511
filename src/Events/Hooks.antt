-- ===== src/Events/Hooks.antt =====
-- hooks/registry.py: hooks run in a deterministic order, and only a blocking one stops the others.
pub mod Order
pub mod Isolation
use forge_os.Base.{
  ℕ, String, Bool, true, false, not, ◌&&◌, Option, none, some, List, [], ◌∷◌, ◌++◌, ◌<>◌,
}
use forge_os.Base.{if◌then◌else◌, or_some, ltb, nat_beq, ◌==◌, filter}
use forge_os.Base.Sort.{sorted}
use forge_os.Base.Text.{str_leb}
use forge_os.Events.Model.{LifecycleEvent}

pub data HookStatus : Type 0 where
  succeeded failed timed_out : HookStatus

-- What becomes of the handler's call in the executor, with its wall-clock time in milliseconds.
pub data HandlerRun : Type 0 where
  returns : ℕ → HandlerRun
  raises : String → ℕ → HandlerRun
  exceeds : ℕ → HandlerRun

pub record HookResult : Type 0 where
  pub hook_name : String
  pub status : HookStatus
  pub error : Option String
  pub duration_ms : ℕ

pub record RegisteredHook : Type 0 where
  pub event_type : String
  pub name : String
  pub handler : LifecycleEvent → HandlerRun
  pub order : ℕ
  pub timeout_seconds : ℕ
  pub blocking : Bool

-- What `run` hands back: the results, or the message of the `RuntimeError`.
pub data HookRun : Type 0 where
  finished : List HookResult → HookRun
  blocked : String → HookRun

-- `name or getattr(handler, "__name__", "anonymous_hook")`: `fallback` is the handler's own name
pub register :
    String
    → (LifecycleEvent → HandlerRun)
    → Option String
    → String
    → ℕ
    → ℕ
    → Bool
    → List RegisteredHook
    → List RegisteredHook
register event_type handler name fallback order timeout_seconds blocking hooks =
    hooks
    ++ record {
      event_type = event_type;
      name = elim name [ none ↦ fallback | some n ↦ if n == "" then fallback else n ];
      handler = handler;
      order = order;
      timeout_seconds = timeout_seconds;
      blocking = blocking;
    }
      ∷ []

-- the key `(hook.order, hook.name)`
pub hook_leb : RegisteredHook → RegisteredHook → Bool
hook_leb a b =
    if ltb a.order b.order
    then true
    else if nat_beq a.order b.order
    then str_leb a.name b.name
    else false

pub hooks_for : List RegisteredHook → String → List RegisteredHook
hooks_for hooks event_type = sorted hook_leb (filter (λ h. h.event_type == event_type) hooks)

result_of : RegisteredHook → HandlerRun → HookResult
result_of hook (returns ms) = record {
  hook_name = hook.name;
  status = succeeded;
  error = none;
  duration_ms = ms;
}
result_of hook (raises message ms) = record {
  hook_name = hook.name;
  status = failed;
  error = some message;
  duration_ms = ms;
}
result_of hook (exceeds ms) = record {
  hook_name = hook.name;
  status = timed_out;
  error = some "timeout";
  duration_ms = ms;
}

pub run_one : RegisteredHook → LifecycleEvent → HookResult
unfolding result_of
run_one hook event = result_of hook (hook.handler event)

abbrev pub is_succeeded : HookStatus → Bool
is_succeeded succeeded = true
is_succeeded failed = false
is_succeeded timed_out = false

-- `hook.blocking and result.status != "succeeded"`
pub stops : RegisteredHook → LifecycleEvent → Bool
unfolding run_one
stops hook event = hook.blocking && not (is_succeeded (run_one hook event).status)

show_error : Option String → String
show_error none = "None"
show_error (some e) = e

pub blocked_message : RegisteredHook → LifecycleEvent → String
unfolding show_error run_one
blocked_message hook event =
    "Blocking hook `" <> (hook.name <> ("` failed: " <> show_error (run_one hook event).error))

abbrev keep : HookResult → HookRun → HookRun
keep r (finished rs) = finished (r ∷ rs)
keep r (blocked m) = blocked m

-- the loop of `run` over the hooks in order
pub run_hooks : List RegisteredHook → LifecycleEvent → HookRun
run_hooks [] event = finished []
run_hooks (hook ∷ rest) event =
    let later = run_hooks rest event in
    if stops hook event
    then blocked (blocked_message hook event)
    else keep (run_one hook event) later

pub run : List RegisteredHook → LifecycleEvent → HookRun
run hooks event = run_hooks (hooks_for hooks event.event_type) event
