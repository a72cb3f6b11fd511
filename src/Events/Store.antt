-- ===== src/Events/Store.antt =====
-- events/store.py: the append-only event log in SQLite, with snapshots. A table is the list of its
-- rows in the order of `event_id`; `AUTOINCREMENT` never gives an identifier twice.
pub mod Versions
pub mod Replay
pub mod Snapshots
use forge_os.Base.{
  ℕ, zero, suc, ◌+◌, max, String, Bool, true, false, Option, none, some, List, [], ◌∷◌, ◌++◌,
  filter, find?, if◌then◌else◌, ltb, leb, ◌==◌,
}
use forge_os.Base.Dict.{Dict, update}
use forge_os.Events.Model.{Value}

-- A decoded payload: what stands under its key "state", if that is there, and the rest.
pub record Payload (V : Type 0) : Type 0 where
  pub state : Option (Dict V)
  pub rest : Dict (Value ℕ)

pub record EventRow (V : Type 0) : Type 0 where
  pub event_id : ℕ
  pub stream_id : String
  pub event_type : String
  pub payload : Payload V
  pub version : ℕ
  pub created_at : String

pub record Snapshot (V : Type 0) : Type 0 where
  pub stream_id : String
  pub state : Dict V
  pub event_version : ℕ
  pub created_at : String

pub record EventDb (V : Type 0) : Type 0 where
  pub events : List (EventRow V)
  pub snapshots : List (Snapshot V)
  pub next_id : ℕ

abbrev pub empty_db : {V : Type 0} → EventDb V
empty_db = record { events = []; snapshots = []; next_id = 1 }

module _ {V : Type 0} where
  -- `SELECT ... WHERE stream_id = ? ORDER BY event_id`
  unfoldable pub read_stream : EventDb V → String → List (EventRow V)
  read_stream db stream_id = filter (λ r. r.stream_id == stream_id) db.events

  -- `SELECT ... WHERE stream_id = ? AND version > ? ORDER BY event_id`
  pub read_stream_from : EventDb V → String → ℕ → List (EventRow V)
  unfolding read_stream
  read_stream_from db stream_id from_version =
      filter (λ r. ltb from_version r.version) (read_stream db stream_id)

  pub read_all : EventDb V → List (EventRow V)
  read_all db = db.events

  pub read_by_type : EventDb V → String → List (EventRow V)
  read_by_type db event_type = filter (λ r. r.event_type == event_type) db.events

  -- `COALESCE(MAX(version), 0)`
  unfoldable pub max_version : List (EventRow V) → ℕ
  max_version [] = 0
  max_version (r ∷ rs) = max r.version (max_version rs)

  unfoldable pub next_version : EventDb V → String → ℕ
  unfolding max_version read_stream
  next_version db stream_id = max_version (read_stream db stream_id) + 1

  -- the database's default for `created_at` is the argument `now`
  unfoldable pub append : EventDb V → String → String → Payload V → String → EventDb V × ℕ
  unfolding next_version
  append db stream_id event_type payload now = (
    record db {
      events =
          db.events
          ++ record {
            event_id = db.next_id;
            stream_id = stream_id;
            event_type = event_type;
            payload = payload;
            version = next_version db stream_id;
            created_at = now;
          }
            ∷ [];
      next_id = db.next_id + 1;
    },
    db.next_id,
  )

  pub append_state_event : EventDb V → String → Dict V → String → EventDb V × ℕ
  unfolding append
  append_state_event db stream_id state now =
      append db stream_id "StateSaved" (record { state = some state; rest = [] }) now

  -- `INSERT OR REPLACE`: the row of the stream's primary key is replaced
  pub save_snapshot : EventDb V → String → Dict V → ℕ → String → EventDb V
  save_snapshot db stream_id state event_version now = record db {
    snapshots =
        record {
          stream_id = stream_id;
          state = state;
          event_version = event_version;
          created_at = now;
        }
        ∷ filter (λ s. if s.stream_id == stream_id then false else true) db.snapshots;
  }

  unfoldable pub load_snapshot : EventDb V → String → Option (Snapshot V)
  load_snapshot db stream_id = find? (λ s. s.stream_id == stream_id) db.snapshots

  pub apply_payload : Dict V → Option (Dict V) → Dict V
  apply_payload state none = state
  apply_payload state (some changes) = update state changes

  -- the loop of `replay_state`
  pub replay_rows : ℕ → Dict V → List (EventRow V) → Dict V
  unfolding apply_payload
  replay_rows start state [] = state
  replay_rows start state (r ∷ rs) =
      replay_rows start (if leb r.version start then state else apply_payload state r.payload.state)
        rs

  replay_from : Option (Snapshot V) → List (EventRow V) → Dict V
  unfolding replay_rows
  replay_from none rows = replay_rows 0 [] rows
  replay_from (some s) rows = replay_rows s.event_version s.state rows

  pub replay_state : EventDb V → String → Option (Dict V)
  unfolding replay_from
  replay_state db stream_id = elim (read_stream db stream_id) [
    | [] ↦ none
    | r ∷ rs ↦ some (replay_from (load_snapshot db stream_id) (r ∷ rs))
  ]
