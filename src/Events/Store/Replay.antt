-- ===== src/Events/Store/Replay.antt =====
-- What `replay_state` rebuilds, and when the snapshots agree with the log.
use forge_os.Base.{
  ℕ, suc, ◌+◌, ◌<◌, ◌≡◌, refl, ap, sym, ◌∙◌, String, List, [], ◌∷◌, ◌++◌, arith, length, Option,
  none, some,
}
use forge_os.Base.Dict.{Dict}
use forge_os.Events.Store.{
  EventRow, EventDb, Snapshot, read_stream, load_snapshot, apply_payload, replay_rows, replay_from,
  replay_state,
}
use forge_os.Events.Store.Versions.{IsNumbered, IsValid}

module _ {V : Type 0} where
  -- The specification: every payload of the stream, from the empty state, in order.
  unfoldable pub fold_rows : Dict V → List (EventRow V) → Dict V
  unfolding apply_payload
  fold_rows state [] = state
  fold_rows state (r ∷ rs) = fold_rows (apply_payload state r.payload.state) rs

  pub fold_rows-append :
      (d : Dict V) (rs ss : List (EventRow V))
      → fold_rows d (rs ++ ss) ≡ fold_rows (fold_rows d rs) ss
  unfolding fold_rows
  fold_rows-append d [] ss = refl
  fold_rows-append d (r ∷ rs) ss = fold_rows-append (apply_payload d r.payload.state) rs ss

  -- rows above the version of the snapshot are all applied
  replay_rows-above :
      (k n : ℕ) (d : Dict V) (rs : List (EventRow V))
      → n < k
      → IsNumbered k rs
      → replay_rows n d rs ≡ fold_rows d rs
  unfolding replay_rows fold_rows
  replay_rows-above k n d [] h v = refl
  replay_rows-above k n d (r ∷ rs) h v =
      ground (arith, replay_rows-above (suc k) n (apply_payload d r.payload.state) rs)

  -- rows up to the version of the snapshot are skipped
  replay_rows-skip :
      (k n : ℕ) (d : Dict V) (rs ss : List (EventRow V))
      → IsNumbered k (rs ++ ss)
      → n + 1 ≡ k + length rs
      → replay_rows n d (rs ++ ss) ≡ fold_rows d ss
  unfolding replay_rows
  replay_rows-skip k n d [] ss v e = replay_rows-above k n d ss (omega arith) v
  replay_rows-skip k n d (r ∷ rs) ss v e = ground (arith, replay_rows-skip (suc k) n d rs ss v.1)

  -- A snapshot is right for a stream if it is the fold of its first `event_version` events.
  pub record IsCheckpoint (snap : Snapshot V) (rows : List (EventRow V)) : Type 0 where
    pub before : List (EventRow V)
    pub since : List (EventRow V)
    pub split : rows ≡ before ++ since
    pub position : snap.event_version ≡ length before
    pub content : snap.state ≡ fold_rows [] before

  abbrev pub AgreesWith : Option (Snapshot V) → List (EventRow V) → Type 0
  AgreesWith none rows = Unit {0}
  AgreesWith (some s) rows = IsCheckpoint s rows

  replay_from_lem :
      (o : Option (Snapshot V)) (rows : List (EventRow V))
      → IsNumbered 1 rows
      → AgreesWith o rows
      → replay_from o rows ≡ fold_rows [] rows
  unfolding replay_from
  replay_from_lem none rows v c = replay_rows-above 1 0 [] rows (omega arith) v
  replay_from_lem (some s) rows v c = rw c.split (
      replay_rows-skip 1 s.event_version s.state c.before c.since (rw c.split at v)
        (omega (arith, c.position))
      ∙ ap (λ d. fold_rows d c.since) c.content
      ∙ sym (fold_rows-append [] c.before c.since))

  -- In a valid database whose snapshot of the stream is right, or missing, replaying from the
  -- snapshot gives the fold of all events of the stream.
  pub replay_state-fold :
      (db : EventDb V) (s : String)
      → IsValid db
      → AgreesWith (load_snapshot db s) (read_stream db s)
      → replay_state db s
        ≡ (elim (read_stream db s) [ [] ↦ none | r ∷ rs ↦ some (fold_rows [] (r ∷ rs)) ])
  unfolding replay_state
  replay_state-fold db s v c = pick (read_stream db s) (v.numbered s) c
    where
      pick :
          (rows : List (EventRow V))
          → IsNumbered 1 rows
          → AgreesWith (load_snapshot db s) rows
          → ◌≡◌ {A = Option (Dict V)}
              (elim rows [ [] ↦ none | r ∷ rs ↦ some (replay_from (load_snapshot db s) (r ∷ rs)) ])
              (elim rows [ [] ↦ none | r ∷ rs ↦ some (fold_rows [] (r ∷ rs)) ])
      pick [] g k = refl
      pick (r ∷ rs) g k = ap some (replay_from_lem (load_snapshot db s) (r ∷ rs) g k)
