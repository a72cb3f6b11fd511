-- ===== src/Tests/EventTests.antt =====
-- The event store's and the hooks' theorems at small values.
use mathlib.Core.List.{Perm}
use forge_os.Base.{
  ℕ, ◌<◌, String, true, false, none, some, List, [], ◌∷◌, ◌≡◌, ◌⊎◌, refl, any, map, filter, ◌==◌,
  ◌&&◌, All, length,
}
use forge_os.Base.Dict.{Dict, lookup}
use forge_os.Base.Sort.{Pairwise}
use forge_os.Events.Model.{LifecycleEvent}
use forge_os.Events.Hooks.{RegisteredHook, raises, finished, hooks_for, run}
use forge_os.Events.Hooks.Isolation.{misses, reported, IsStopped, run_isolates}
use forge_os.Events.Hooks.Order.{Precedes, is_called, hooks_for-IsSorted}
use forge_os.Events.Store.{
  EventDb, Payload, empty_db, read_stream, append, append_state_event, save_snapshot, load_snapshot,
  replay_state,
}
use forge_os.Events.Store.Versions.{IsValid, append-IsValid}
use forge_os.Events.Store.Replay.{AgreesWith, fold_rows, replay_state-fold}
use forge_os.Events.Store.Snapshots.{replay-append_state_event, save_snapshot-AgreesWith}
use forge_os.Tests.Sample.{sample_hook}

abbrev no_events : EventDb ℕ
no_events = empty_db

abbrev one_field : Dict ℕ
one_field = ("version", 3) ∷ []

no_events-IsValid : IsValid no_events
unfolding read_stream
no_events-IsValid = record { numbered = λ s. tt; fresh = tt }

abbrev sample_payload : Payload ℕ
sample_payload = record { state = some one_field; rest = [] }

abbrev one_event : EventDb ℕ
one_event = (append no_events "pipeline" "StateSaved" sample_payload "t1").0

one_event-IsValid : IsValid one_event
one_event-IsValid =
    (append-IsValid no_events "pipeline" "StateSaved" sample_payload "t1" no_events-IsValid).0

one_event-AgreesWith :
    AgreesWith (load_snapshot one_event "pipeline") (read_stream one_event "pipeline")
unfolding load_snapshot append
one_event-AgreesWith = tt

append-IsValid_example :
    IsValid (append one_event "pipeline" "StateSaved" sample_payload "t2").0
    × All
        (λ r. r.event_id < (append one_event "pipeline" "StateSaved" sample_payload "t2").1)
        one_event.events
append-IsValid_example =
    append-IsValid one_event "pipeline" "StateSaved" sample_payload "t2" one_event-IsValid

replay_state-fold_example :
    replay_state one_event "pipeline" ≡ (elim (read_stream one_event "pipeline") [
      | [] ↦ none
      | r ∷ rs ↦ some (fold_rows [] (r ∷ rs))
    ])
replay_state-fold_example =
    replay_state-fold one_event "pipeline" one_event-IsValid one_event-AgreesWith

replay-append_state_event_example :
    (d : Dict ℕ) × (replay_state
        (append_state_event one_event "pipeline" one_field "t2").0
        "pipeline"
      ≡ some d)
    × ((k : String) (v : ℕ) → lookup k one_field ≡ some v → lookup k d ≡ some v)
unfolding lookup
replay-append_state_event_example =
    replay-append_state_event one_event "pipeline" one_field "t2" one_event-IsValid
      one_event-AgreesWith (refl, tt)

save_snapshot-AgreesWith_example :
    AgreesWith
      (load_snapshot
        (save_snapshot one_event "pipeline"
          (fold_rows [] (read_stream one_event "pipeline"))
          (length (read_stream one_event "pipeline"))
          "t2")
        "pipeline")
      (read_stream one_event "pipeline")
save_snapshot-AgreesWith_example =
    save_snapshot-AgreesWith one_event "pipeline" "pipeline" "t2" one_event-AgreesWith

abbrev sample_hooks : List RegisteredHook
sample_hooks =
    sample_hook "audit" 2 (raises "boom" 4) true
    ∷ sample_hook "log" 1 (raises "ignored" 4) false
    ∷ []

abbrev sample_event : LifecycleEvent
sample_event = record {
  schema_version = "0.1";
  event_id = "evt-1";
  correlation_id = none;
  event_type = "stage_enter";
  timestamp = "t0";
  session_id = none;
  stage_id = some "srs";
  actor = record { kind = "kernel"; id = "forge" };
  payload = [];
  redactions = [];
}

run_isolates_example :
    ((any
          (λ h. h.blocking && misses (h.handler sample_event))
          (hooks_for sample_hooks "stage_enter")
        ≡ false)
      × (run sample_hooks sample_event
          ≡ finished (
              map
                (λ h. reported h.name (h.handler sample_event))
                (hooks_for sample_hooks "stage_enter"))))
    ⊎ IsStopped (hooks_for sample_hooks "stage_enter") sample_event (run sample_hooks sample_event)
run_isolates_example = run_isolates sample_hooks sample_event

hooks_for-IsSorted_example :
    Pairwise Precedes (hooks_for sample_hooks "stage_enter")
    × Perm
        (hooks_for sample_hooks "stage_enter")
        (filter (λ h. h.event_type == "stage_enter") sample_hooks)
    × (filter (is_called 1 "log") (hooks_for sample_hooks "stage_enter")
        ≡ filter (is_called 1 "log") (filter (λ h. h.event_type == "stage_enter") sample_hooks))
hooks_for-IsSorted_example = hooks_for-IsSorted sample_hooks "stage_enter" 1 "log"
