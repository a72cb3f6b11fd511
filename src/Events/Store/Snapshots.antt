-- ===== src/Events/Store/Snapshots.antt =====
-- Appends and snapshots keep the replay right: the log and its checkpoints stay in agreement.
use forge_os.Base.{
  append_nil, ℕ, ◌≡◌, refl, ap, sym, ◌∙◌, String, List, [], ◌∷◌, ◌++◌, arith, filter, length,
  if◌then◌else◌, ◌==◌, true, false, eq_iff, eq_refl, Option, none, some, find?,
}
use forge_os.Base.Dict.{Dict, lookup, lookup-update, IsDict}
use forge_os.Events.Store.{
  EventRow, EventDb, Payload, Snapshot, read_stream, append, append_state_event, save_snapshot,
  load_snapshot, apply_payload, replay_state,
}
use forge_os.Events.Store.Versions.{IsValid, read_stream-append, appended, append-IsValid}
use forge_os.Events.Store.Replay.{fold_rows, fold_rows-append, AgreesWith, replay_state-fold}

module _ {V : Type 0} where
  append_assoc' : (xs ys zs : List (EventRow V)) → (xs ++ ys) ++ zs ≡ xs ++ (ys ++ zs)
  append_assoc' [] ys zs = refl
  append_assoc' (x ∷ xs) ys zs = ap (◌∷◌ x) (append_assoc' xs ys zs)

  AgreesWith-snoc :
      (o : Option (Snapshot V)) (rows : List (EventRow V)) (r : EventRow V)
      → AgreesWith o rows
      → AgreesWith o (rows ++ r ∷ [])
  AgreesWith-snoc none rows r c = tt
  AgreesWith-snoc (some s) rows r c = record {
    before = c.before;
    since = c.since ++ r ∷ [];
    split = ap (λ l. l ++ r ∷ []) c.split ∙ append_assoc' c.before c.since (r ∷ []);
    position = c.position;
    content = c.content;
  }

  -- A snapshot of a stream that was right, or missing, stays so when an event is appended, to any
  -- stream.
  pub append-AgreesWith :
      (db : EventDb V) (s t : String) (event_type : String) (p : Payload V) (now : String)
      → AgreesWith (load_snapshot db t) (read_stream db t)
      → AgreesWith
          (load_snapshot (append db s event_type p now).0 t)
          (read_stream (append db s event_type p now).0 t)
  append-AgreesWith db s t event_type p now c =
      rw (read_stream-append db s t event_type p now) (rw (same_snapshots) (pick (s == t)))
    where
      same_snapshots : load_snapshot (append db s event_type p now).0 t ≡ load_snapshot db t
      same_snapshots = unfold append load_snapshot in refl

      pick :
          (b : _)
          → AgreesWith (load_snapshot db t) (
              if b
              then read_stream db t ++ appended db s event_type p now ∷ []
              else read_stream db t)
      pick true =
          AgreesWith-snoc (load_snapshot db t) (read_stream db t) (appended db s event_type p now) c
      pick false = c

  find-skip :
      (s t : String) (l : List (Snapshot V))
      → (s == t) ≡ false
      → find? (λ x. x.stream_id == t) (filter (λ x. if x.stream_id == s then false else true) l)
        ≡ find? (λ x. x.stream_id == t) l
  find-skip s t [] h = refl
  find-skip s t (x ∷ l) h =
      ground (arith, find-skip s t l h, eq_iff s t, eq_iff x.stream_id s, eq_iff x.stream_id t)

  -- A snapshot replaces that of its own stream, and no other.
  pub load-save_snapshot :
      (db : EventDb V) (s t : String) (state : Dict V) (v : ℕ) (now : String)
      → load_snapshot (save_snapshot db s state v now) t ≡ (
          if s == t
          then some (record { stream_id = s; state = state; event_version = v; created_at = now })
          else load_snapshot db t)
  unfolding load_snapshot save_snapshot
  load-save_snapshot db s t state v now = ground (arith, find-skip s t db.snapshots)

  -- Where the snapshot of a stream is right, or missing, it is so after any stream, the same or
  -- another, gets a new snapshot of the fold of all its events so far, under the number of those
  -- events.
  pub save_snapshot-AgreesWith :
      (db : EventDb V) (s t : String) (now : String)
      → AgreesWith (load_snapshot db t) (read_stream db t)
      → AgreesWith
          (load_snapshot
            (save_snapshot db s (fold_rows [] (read_stream db s)) (length (read_stream db s)) now)
            t)
          (read_stream db t)
  save_snapshot-AgreesWith db s t now c =
      rw
        (load-save_snapshot db s t (fold_rows [] (read_stream db s)) (length (read_stream db s))
          now)
        (pick (s == t) (λ e. (eq_iff s t).0 e))
    where
      pick :
          (b : _)
          → (b ≡ true → s ≡ t)
          → AgreesWith
              (if b
                then some (record {
                  stream_id = s;
                  state = fold_rows [] (read_stream db s);
                  event_version = length (read_stream db s);
                  created_at = now;
                })
                else load_snapshot db t)
              (read_stream db t)
      pick true e = record {
        before = read_stream db s;
        since = [];
        split = ap (read_stream db) (sym (e refl)) ∙ sym (append_nil (read_stream db s));
        position = refl;
        content = refl;
      }
      pick false e = c

  some_of_snoc :
      (rows : List (EventRow V)) (r : EventRow V)
      → ◌≡◌ {A = Option (Dict V)}
          (elim (rows ++ r ∷ []) [ [] ↦ none | x ∷ xs ↦ some (fold_rows [] (x ∷ xs)) ])
          (some (fold_rows [] (rows ++ r ∷ [])))
  some_of_snoc [] r = refl
  some_of_snoc (x ∷ xs) r = refl

  -- After a state without repeated keys has been saved to a valid database whose snapshot of the
  -- stream is right, or missing, replaying the stream returns a state in which each field of the
  -- saved state has its saved value, whatever was saved before.
  pub replay-append_state_event :
      (db : EventDb V) (s : String) (state : Dict V) (now : String)
      → IsValid db
      → AgreesWith (load_snapshot db s) (read_stream db s)
      → IsDict state
      → (d : Dict V) × (replay_state (append_state_event db s state now).0 s ≡ some d)
        × ((k : String) (v : V) → lookup k state ≡ some v → lookup k d ≡ some v)
  unfolding append_state_event
  replay-append_state_event db s state now v c u = (
    fold_rows [] (read_stream db s ++ row ∷ []),
    replay_state-fold (append db s "StateSaved" payload now).0 s
          (append-IsValid db s "StateSaved" payload now v).0
          (append-AgreesWith db s s "StateSaved" payload now c)
        ∙ rw (read_stream-append db s s "StateSaved" payload now, eq_refl s)
            (some_of_snoc (read_stream db s) row),
    λ k x h. rw (fold_rows-append [] (read_stream db s) (row ∷ [])) (
        unfold fold_rows apply_payload in
        rw (lookup-update k (fold_rows [] (read_stream db s)) state u) (rw h)),
  )
    where
      payload : Payload V
      payload = record { state = some state; rest = [] }

      row : EventRow V
      row = appended db s "StateSaved" payload now
