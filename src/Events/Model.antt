-- ===== src/Events/Model.antt =====
-- events/model.py and events/log.py: the normalized event record and the reads of the log.
use forge_os.Base.{ℕ, String, Bool, true, Option, none, some, List, [], ◌∷◌, ◌<>◌}
use forge_os.Base.{if◌then◌else◌, opt_eq, ◌==◌}

-- A JSON value, over the numbers that the program meets at that place.
pub data Value (Num : Type 0) : Type 0 where
  null : Value Num
  text : String → Value Num
  flag : Bool → Value Num
  num : Num → Value Num
  texts : List String → Value Num

pub record EventActor : Type 0 where
  pub kind : String
  pub id : String

pub record LifecycleEvent : Type 0 where
  pub schema_version : String
  pub event_id : String
  pub correlation_id : Option String
  pub event_type : String
  pub timestamp : String
  pub session_id : Option String
  pub stage_id : Option String
  pub actor : EventActor
  pub payload : List (String × Value ℕ)
  pub redactions : List String

-- `uuid` and `timestamp` are what `uuid4` and the clock return for this event
pub new_event :
    String
    → String
    → String
    → Option String
    → String
    → String
    → List (String × Value ℕ)
    → LifecycleEvent
new_event uuid timestamp event_type stage_id actor_type actor_id payload = record {
  schema_version = "0.1";
  event_id = "evt-" <> uuid;
  correlation_id = none;
  event_type = event_type;
  timestamp = timestamp;
  session_id = none;
  stage_id = stage_id;
  actor = record { kind = actor_type; id = actor_id };
  payload = payload;
  redactions = [];
}

-- a filter that is not given lets everything through
abbrev pub unless_given : Option String → (String → Bool) → Bool
unless_given none test = true
unless_given (some s) test = test s

-- the loop of `filter_events`, with its two `continue`s
pub filter_events : List LifecycleEvent → Option String → Option String → List LifecycleEvent
filter_events [] event_type stage_id = []
filter_events (e ∷ es) event_type stage_id =
    let rest = filter_events es event_type stage_id in
    if unless_given event_type (λ t. e.event_type == t)
    then if unless_given stage_id (opt_eq e.stage_id) then e ∷ rest else rest
    else rest
