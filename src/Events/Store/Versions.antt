-- ===== src/Events/Store/Versions.antt =====
-- The versions and identifiers that `append` gives out.
use forge_os.Base.{
  append_nil, ℕ, suc, ◌+◌, ◌<◌, ◌≡◌, ap, ◌∙◌, String, List, [], ◌∷◌, ◌++◌, arith, filter,
  filter-append, length, if◌then◌else◌, ◌==◌, All, Bool-cases, inl, inr, eq_iff, All-append,
  All-mono,
}
use forge_os.Events.Store.{
  EventRow, EventDb, Payload, read_stream, max_version, next_version, append,
}

module _ {V : Type 0} where
  -- The rows are numbered upwards from `k`, with no gap.
  abbrev pub IsNumbered : ℕ → List (EventRow V) → Type 0
  IsNumbered k [] = Unit
  IsNumbered k (r ∷ rs) = (r.version ≡ k) × IsNumbered (suc k) rs

  pub record IsValid (db : EventDb V) : Type 0 where
    pub numbered : (s : String) → IsNumbered 1 (read_stream db s)
    pub fresh : All (λ r. r.event_id < db.next_id) db.events

  IsNumbered-snoc :
      (k : ℕ) (rs : List (EventRow V)) (r : EventRow V)
      → IsNumbered k rs
      → r.version ≡ k + length rs
      → IsNumbered k (rs ++ r ∷ [])
  IsNumbered-snoc k [] r h e = omega arith
  IsNumbered-snoc k (x ∷ xs) r h e = (h.0, IsNumbered-snoc (suc k) xs r h.1 (omega arith))

  max_version-numbered :
      (k : ℕ) (x : EventRow V) (xs : List (EventRow V))
      → IsNumbered (suc k) (x ∷ xs)
      → max_version (x ∷ xs) ≡ k + length (x ∷ xs)
  unfolding max_version
  max_version-numbered k x [] h = omega arith
  max_version-numbered k x (y ∷ ys) h = omega (arith, max_version-numbered (suc k) y ys h.1)

  -- In a valid database the next version of a stream is one more than its number of events.
  pub next_version-length :
      (db : EventDb V) (s : String)
      → IsNumbered 1 (read_stream db s)
      → next_version db s ≡ 1 + length (read_stream db s)
  unfolding next_version
  next_version-length db s h = pick (read_stream db s) h
    where
      pick : (rs : List (EventRow V)) → IsNumbered 1 rs → max_version rs + 1 ≡ 1 + length rs
      pick [] g = unfold max_version in omega arith
      pick (x ∷ xs) g = omega (arith, max_version-numbered 0 x xs g)

  abbrev pub appended : EventDb V → String → String → Payload V → String → EventRow V
  appended db stream_id event_type payload now = record {
    event_id = db.next_id;
    stream_id = stream_id;
    event_type = event_type;
    payload = payload;
    version = next_version db stream_id;
    created_at = now;
  }

  -- An append adds one row at the end of its own stream and leaves every other stream alone.
  pub read_stream-append :
      (db : EventDb V) (s t : String) (event_type : String) (p : Payload V) (now : String)
      → read_stream (append db s event_type p now).0 t ≡ (
          if s == t
          then read_stream db t ++ appended db s event_type p now ∷ []
          else read_stream db t)
  unfolding read_stream append
  read_stream-append db s t event_type p now = ground (
    arith,
    filter-append (λ r. r.stream_id == t) db.events (appended db s event_type p now ∷ []),
    append_nil (filter (λ r. r.stream_id == t) db.events),
  )

  append-IsNumbered :
      (db : EventDb V) (s t : String) (event_type : String) (p : Payload V) (now : String)
      → IsValid db
      → IsNumbered 1 (read_stream (append db s event_type p now).0 t)
  append-IsNumbered db s t event_type p now v = elim (Bool-cases (s == t)) [
    | inr e ↦ rw (read_stream-append db s t event_type p now, e) (v.numbered t)
    | inl e ↦
        rw (read_stream-append db s t event_type p now, e)
          (IsNumbered-snoc 1 (read_stream db t) (appended db s event_type p now) (v.numbered t) (
            next_version-length db s (v.numbered s)
            ∙ ap (λ u. 1 + length (read_stream db u)) ((eq_iff s t).0 e)))
  ]

  -- In a valid database every append, to any stream, keeps the versions of each stream 1, 2, 3, ...
  -- with no gap, and gives out an identifier that no row had.
  pub append-IsValid :
      (db : EventDb V) (s : String) (event_type : String) (p : Payload V) (now : String)
      → IsValid db
      → IsValid (append db s event_type p now).0
        × All (λ r. r.event_id < (append db s event_type p now).1) db.events
  unfolding append
  append-IsValid db s event_type p now v = (
    record {
      numbered = λ t. append-IsNumbered db s t event_type p now v;
      fresh =
          All-append (λ r. r.event_id < db.next_id + 1) db.events
            (appended db s event_type p now ∷ [])
            (All-mono (λ r. r.event_id < db.next_id) (λ r. r.event_id < db.next_id + 1)
              (λ r h. omega arith) db.events v.fresh)
            (omega arith, tt);
    },
    v.fresh,
  )
