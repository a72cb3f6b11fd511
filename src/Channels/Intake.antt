-- ===== src/Channels/Intake.antt =====
-- channels/intake.py: the queue of feedback, without duplicates and with a limit for each sender.
pub mod Limits
use forge_os.Base.{
  ℕ, String, Bool, true, false, not, ◌&&◌, Option, none, some, List, [], ◌∷◌, ◌++◌, ◌<>◌, ◌==◌,
  if◌then◌else◌, filter, any, length, leb,
}
use forge_os.Base.Outcome.{
  Action, raise, pure, done, raised, ◌>>=◌, ◌>>◌, os_error, channel_duplicate_error,
  channel_rate_limit_error,
}
use forge_os.Host.{Host, Attempt, value, error}
use forge_os.Channels.{TrustLevel}

pub record FeedbackItem : Type 0 where
  pub feedback_id : String
  pub channel_id : String
  pub sender : String
  pub text : String
  pub trust_level : TrustLevel
  pub created_at : String
  pub status : String

-- the items of `.forge/channels/feedback.jsonl`, and whether a line can be appended
pub record QueueWorld : Type 0 where
  pub items : List FeedbackItem
  pub writable : Bool

abbrev pub Queued : Type 0 → Type 0
Queued A = Action QueueWorld A

abbrev pub is_pending : FeedbackItem → Bool
is_pending item = item.status == "pending"

unfoldable pub list_pending : Queued (List FeedbackItem)
list_pending w = done (filter is_pending w.items) w

abbrev pub is_duplicate : FeedbackItem → FeedbackItem → Bool
is_duplicate item e = (e.sender == item.sender) && (e.text == item.text)

-- `_append`
unfoldable pub append : FeedbackItem → Queued (Unit {0})
append item w =
    if w.writable
    then done tt (record w { items = w.items ++ item ∷ [] })
    else raised (os_error "feedback.jsonl") w

module _ (host : Host) (max_per_window : ℕ) (window_seconds : host.Num) where
  -- a moment that cannot be read, or cannot be subtracted, is outside the window
  abbrev is_within : host.Moment → Attempt host.Moment → Bool
  is_within moment (error _) = false
  is_within moment (value created) = elim (host.total_seconds moment created) [
    | error _ ↦ false
    | value seconds ↦ host.num_ltb seconds window_seconds
  ]

  -- `_within_window`
  unfoldable pub within_window : String → host.Moment → Bool
  within_window created_at moment = is_within moment (host.from_iso created_at)

  unfoldable pub recent_of : String → host.Moment → List FeedbackItem → List FeedbackItem
  unfolding within_window
  recent_of sender moment = filter (λ e. (e.sender == sender) && within_window e.created_at moment)

  unfoldable pub refuse_duplicate : FeedbackItem → List FeedbackItem → Queued (Unit {0})
  refuse_duplicate item existing =
      if any (is_duplicate item) existing
      then raise (channel_duplicate_error ("duplicate feedback from '" <> (item.sender <> "'")))
      else pure tt

  unfoldable pub refuse_limited : FeedbackItem → List FeedbackItem → Queued (Unit {0})
  refuse_limited item recent =
      if leb max_per_window (length recent)
      then raise (
          channel_rate_limit_error (
            "sender '"
            <> (item.sender
                <> ("' exceeded "
                    <> (host.show_nat max_per_window
                        <> (" items per " <> (host.show_whole window_seconds <> "s")))))))
      else pure tt

  -- `moment` is the argument `now`, or the clock's reading
  unfoldable pub submit : FeedbackItem → host.Moment → Queued FeedbackItem
  unfolding list_pending recent_of refuse_duplicate refuse_limited append
  submit item moment = do
    existing ← list_pending
    refuse_duplicate item existing
    refuse_limited item (recent_of item.sender moment existing)
    append item
    pure item
