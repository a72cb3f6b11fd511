-- ===== src/Channels/Intake/Limits.antt =====
-- channels/intake.py: how much of one sender stands in the queue.
use forge_os.Base.{
  ℕ, ◌≤◌, ◌<◌, suc, String, true, false, List, [], ◌∷◌, ◌++◌, ◌≡◌, refl, sym, arith, ◌==◌, eq_iff,
  filter, any, length, leb, filter-append, append_nil, Bool-cases, inl, inr,
}
use mathlib.Core.Path.{subst}
use forge_os.Base.Outcome.{after}
use forge_os.Host.{Host}
use forge_os.Channels.Intake.{
  FeedbackItem, QueueWorld, is_pending, list_pending, is_duplicate, append, within_window,
  recent_of, refuse_duplicate, refuse_limited, submit,
}

-- no two pending items have the sender and the text in common
abbrev pub AreDistinct : List FeedbackItem → Type 0
AreDistinct [] = Unit
AreDistinct (e ∷ es) = (any (is_duplicate e) es ≡ false) × AreDistinct es

distinct_snoc :
    (item : FeedbackItem) (es : List FeedbackItem)
    → any (is_duplicate item) es ≡ false
    → AreDistinct es
    → AreDistinct (es ++ item ∷ [])
distinct_snoc item [] h k = (refl, tt)
distinct_snoc item (e ∷ es) h k =
    (last e es (ground arith) k.0, distinct_snoc item es (ground arith) k.1)
  where
    last :
        (d : FeedbackItem) (ds : List FeedbackItem)
        → is_duplicate item d ≡ false
        → any (is_duplicate d) ds ≡ false
        → any (is_duplicate d) (ds ++ item ∷ []) ≡ false
    last d [] p q = ground (
      arith,
      eq_iff item.sender d.sender,
      eq_iff item.text d.text,
      eq_iff d.sender item.sender,
      eq_iff d.text item.text,
    )
    last d (x ∷ ds) p q = ground (arith, last d ds p)

module _ (host : Host) (limit : ℕ) (window : host.Num) where
  -- the sender's pending items in the window of the moment
  abbrev pub recent : QueueWorld → host.Moment → String → List FeedbackItem
  recent w moment sender = recent_of host limit window sender moment (filter is_pending w.items)

  abbrev pub IsLimited : host.Moment → QueueWorld → Type 0
  IsLimited moment w =
      ((sender : String) → length (recent w moment sender) ≤ limit)
      × AreDistinct (filter is_pending w.items)

  -- what stands in the window of the later moment stood in that of the earlier one
  abbrev pub IsAfter : host.Moment → host.Moment → Type 0
  IsAfter earlier later =
      (created : String)
      → within_window host limit window created later ≡ true
      → within_window host limit window created earlier ≡ true

  unfoldable pub run_submits : List (FeedbackItem × host.Moment) → QueueWorld → QueueWorld
  run_submits [] w = w
  run_submits ((item, moment) ∷ cs) w =
      run_submits cs (after (submit host limit window item moment w))

  abbrev pub AreInTime : host.Moment → List (FeedbackItem × host.Moment) → Type 0
  AreInTime moment [] = Unit
  AreInTime moment ((item, next) ∷ cs) = IsAfter moment next × AreInTime next cs

  abbrev pub last_moment : host.Moment → List (FeedbackItem × host.Moment) → host.Moment
  last_moment moment [] = moment
  last_moment moment ((item, next) ∷ cs) = last_moment next cs

  recent-after :
      (earlier later : host.Moment) (sender : String) (es : List FeedbackItem)
      → IsAfter earlier later
      → length (recent_of host limit window sender later es)
        ≤ length (recent_of host limit window sender earlier es)
  unfolding recent_of
  recent-after earlier later sender [] h = omega arith
  recent-after earlier later sender (e ∷ es) h =
      ground (arith, recent-after earlier later sender es h, h e.created_at)

  recent-grows :
      (moment : host.Moment) (item : FeedbackItem) (sender : String) (es : List FeedbackItem)
      → length (recent_of host limit window sender moment (es ++ item ∷ []))
        ≤ suc (length (recent_of host limit window sender moment es))
  unfolding recent_of
  recent-grows moment item sender [] = ground arith
  recent-grows moment item sender (e ∷ es) = ground (arith, recent-grows moment item sender es)

  recent-other :
      (moment : host.Moment) (item : FeedbackItem) (sender : String) (es : List FeedbackItem)
      → (item.sender == sender) ≡ false
      → length (recent_of host limit window sender moment (es ++ item ∷ []))
        ≡ length (recent_of host limit window sender moment es)
  unfolding recent_of
  recent-other moment item sender [] h = rw h refl
  recent-other moment item sender (e ∷ es) h = ground (arith, recent-other moment item sender es h)

  recent-snoc :
      (moment : host.Moment) (item : FeedbackItem) (sender : String) (es : List FeedbackItem)
      → length (recent_of host limit window item.sender moment es) < limit
      → length (recent_of host limit window sender moment es) ≤ limit
      → length (recent_of host limit window sender moment (es ++ item ∷ [])) ≤ limit
  recent-snoc moment item sender es h k = elim (Bool-cases (item.sender == sender)) [
    | inl e ↦
        subst (λ s. length (recent_of host limit window s moment (es ++ item ∷ [])) ≤ limit)
          {x = item.sender} {y = sender} (ground (arith, eq_iff item.sender sender))
          (omega (arith, h, recent-grows moment item item.sender es))
    | inr e ↦ omega (arith, k, recent-other moment item sender es e)
  ]

  submit-IsLimited :
      (item : FeedbackItem) (earlier moment : host.Moment) (w : QueueWorld)
      → IsAfter earlier moment
      → IsLimited earlier w
      → IsLimited moment (after (submit host limit window item moment w))
  unfolding submit list_pending refuse_duplicate refuse_limited append
  submit-IsLimited item earlier moment w h k =
      elim (Bool-cases (any (is_duplicate item) (filter is_pending w.items))) [
        | inl d ↦ rw d kept
        | inr d ↦
            elim (Bool-cases (
              leb limit (
                length
                  (recent_of host limit window item.sender moment (filter is_pending w.items))))) [
                    | inl l ↦ rw (d, l) kept
                    | inr l ↦ elim (Bool-cases w.writable) [
                      | inl t ↦ rw (d, l, t) (grown d l)
                      | inr t ↦ rw (d, l, t) kept
                    ]
                  ]
      ]
    where
      Holds : List FeedbackItem → Type 0
      Holds es =
          ((sender : String) → length (recent_of host limit window sender moment es) ≤ limit)
          × AreDistinct es

      kept : IsLimited moment w
      kept = (
        λ s. omega (arith, k.0 s, recent-after earlier moment s (filter is_pending w.items) h),
        k.1,
      )

      grown :
          any (is_duplicate item) (filter is_pending w.items) ≡ false
          → leb limit
              (length (recent_of host limit window item.sender moment (filter is_pending w.items)))
            ≡ false
          → IsLimited moment (record w { items = w.items ++ item ∷ [] })
      grown d l =
          subst Holds (sym (filter-append is_pending w.items (item ∷ [])))
            (elim (Bool-cases (is_pending item)) [
              | inl p ↦ rw p (
                λ s.
                    recent-snoc moment item s (filter is_pending w.items) (ground arith) (kept.0 s),
                distinct_snoc item (filter is_pending w.items) d k.1,
              )
              | inr p ↦ rw (p, append_nil (filter is_pending w.items)) kept
            ])

  -- From a queue within the limit, submissions whose moments come one after the other (what stands
  -- in the window of one stood in that of the one before), refused ones included, leave a queue
  -- within it: in the window of the last moment no sender has more than `limit` pending items, and
  -- no two pending items have the sender and the text in common.
  pub run_submits-IsLimited :
      (start : host.Moment) (cs : List (FeedbackItem × host.Moment)) (w : QueueWorld)
      → AreInTime start cs
      → IsLimited start w
      → IsLimited (last_moment start cs) (run_submits cs w)
  unfolding run_submits
  run_submits-IsLimited start [] w h k = k
  run_submits-IsLimited start ((item, moment) ∷ cs) w h k =
      run_submits-IsLimited moment cs (after (submit host limit window item moment w)) h.1
        (submit-IsLimited item start moment w h.0 k)
