-- ===== src/Tests/ChannelTests.antt =====
-- The theorems on channels and on the decay of lessons at concrete inputs.
use forge_os.Base.{
  ℕ, ◌≤◌, length, arith, ◌≡◌, ◌⊎◌, ◌&&◌, ◌||◌, String, true, false, Option, none, some, List, [],
  ◌∷◌, refl, contains,
}
use forge_os.Base.Outcome.{done, returned}
use forge_os.Security.{SecurityProfile, SecurityWorld, allow, policy_of}
use forge_os.Channels.{untrusted}
use forge_os.Channels.Identity.{
  ChannelIdentity, IdentityWorld, missing, identities, get, bound_of, load_all, begin_pairing,
  confirm, is_bound, refuse_bound, new_code, upsert, write, confirm_found,
}
use forge_os.Channels.Identity.Pairing.{
  IdentityCall, begin_call, confirm_call, pairing_of, found, run_identity_calls, pairing_steps,
  pairings_of, bound_to, run_call,
}
use forge_os.Channels.Identity.Pairing.Worlds.{world}
use forge_os.Channels.Identity.Pairing.Refines.{identity_calls_refine}
use forge_os.Channels.Policy.{authorize_channel_action, unbound_allowed}
use forge_os.Channels.Policy.Authorized.{
  is_allow, authorize_channel_action-eq, privileged_needs_pairing,
}
use forge_os.Channels.Intake.{FeedbackItem, QueueWorld, within_window, recent_of}
use forge_os.Channels.Intake.Limits.{IsLimited, IsAfter, run_submits, run_submits-IsLimited, recent}
use forge_os.Memory.Lessons.{Lesson, approved, manual, document}
use forge_os.Dreamer.{DecaySettings, Report, got, parse_timestamp, days_since, apply_decay}
use forge_os.Dreamer.Faded.{IsReport}
use forge_os.Dreamer.Returning.{IsDated, apply_decay-returns}
use forge_os.Dreamer.Dormancy.{IsDecayed, apply_decay-IsDecayed}
use forge_os.Tests.Sample.{sample_host}

-- a sender pairs, confirms a wrong code, and then the right one
abbrev some_pairing : List IdentityCall
some_pairing =
    begin_call "console" "ada"
    ∷ confirm_call "console" "ada" "wrong" "Ada"
    ∷ confirm_call "console" "ada" "uuid" "Ada"
    ∷ []

identity_calls_refine_example :
    pairing_of
      (found "console" "ada" (run_identity_calls sample_host some_pairing (world missing 0)).file)
    ≡ (pairing_steps sample_host some_pairing (pairings_of (world missing 0))).of "console" "ada"
identity_calls_refine_example =
    identity_calls_refine sample_host some_pairing missing 0 "console" "ada" tt

abbrev open_profile : SecurityProfile
open_profile = record {
  profile_id = "open";
  default_policy = allow;
  capabilities = [];
  audit_enabled = true;
}

abbrev fresh_log : SecurityWorld
fresh_log = record { log = []; log_writable = true; runs = []; tick = 0 }

abbrev ada : ChannelIdentity
ada = record {
  channel_id = "console";
  sender = "ada";
  forge_identity = some "Ada";
  bound = true;
  pairing_code = none;
}

authorize_channel_action-eq_example :
    returned (authorize_channel_action sample_host open_profile "deploy" (some ada) fresh_log)
    ≡ contains unbound_allowed "deploy"
      || (bound_of (some ada) && is_allow (policy_of open_profile (some "deploy")))
authorize_channel_action-eq_example =
    authorize_channel_action-eq sample_host open_profile "deploy" (some ada) fresh_log refl

abbrev paired_world : IdentityWorld
paired_world = world (identities (ada ∷ [])) 1

paired_get :
    get "console" "ada" (run_identity_calls sample_host some_pairing (world missing 0))
    ≡ done (some ada) paired_world
unfolding get load_all run_identity_calls run_call begin_pairing confirm is_bound refuse_bound
    new_code upsert write confirm_found
paired_get = refl

deploy_is_let_through :
    returned (authorize_channel_action sample_host open_profile "deploy" (some ada) fresh_log)
    ≡ true
unfolding policy_of
deploy_is_let_through =
    authorize_channel_action-eq sample_host open_profile "deploy" (some ada) fresh_log refl

privileged_needs_pairing_example :
    (contains unbound_allowed "deploy" ≡ true)
    ⊎ ((name : Option String) × ((pairing_steps sample_host some_pairing
              (pairings_of (world missing 0))).of
            "console" "ada"
          ≡ bound_to name)
        × (policy_of open_profile (some "deploy") ≡ allow))
privileged_needs_pairing_example =
    privileged_needs_pairing sample_host open_profile "deploy" some_pairing missing 0 "console"
      "ada" (some ada) paired_world fresh_log tt paired_get deploy_is_let_through

abbrev feedback : String → FeedbackItem
feedback words = record {
  feedback_id = "fb";
  channel_id = "console";
  sender = "ada";
  text = words;
  trust_level = untrusted;
  created_at = "t0";
  status = "pending";
}

abbrev empty_queue : QueueWorld
empty_queue = record { items = []; writable = true }

-- the second is a duplicate, and the third at the limit of one item in ten seconds
abbrev some_feedback : List (FeedbackItem × ℕ)
some_feedback = (feedback "good", 1) ∷ (feedback "good", 2) ∷ (feedback "bad", 3) ∷ []

in_window_before : (m n : ℕ) → m ≤ n → IsAfter sample_host 1 10 m n
unfolding within_window
in_window_before m n h created k = ground (arith, h, k)

none_recent : (sender : String) → length (recent sample_host 1 10 empty_queue 0 sender) ≤ 1
unfolding recent_of
none_recent sender = omega arith

run_submits-IsLimited_example :
    IsLimited sample_host 1 10 3 (run_submits sample_host 1 10 some_feedback empty_queue)
run_submits-IsLimited_example =
    run_submits-IsLimited sample_host 1 10 0 some_feedback empty_queue
      (
        in_window_before 0 1 (omega arith),
        (in_window_before 1 2 (omega arith), (in_window_before 2 3 (omega arith), tt)),
      )
      (none_recent, tt)

abbrev tired_lesson : Lesson ℕ
tired_lesson = record {
  id = "lesson-1";
  text = "Write tests first.";
  status = approved;
  confidence = 1;
  tags = [];
  stage_id = none;
  source = manual;
  created_at = "t0";
  updated_at = "t0";
  approved_at = some "t0";
  deprecated_at = none;
  last_used_at = none;
  use_count = 0;
  dormant = false;
  dormant_at = none;
  metadata = [];
}

abbrev sample_decay : DecaySettings sample_host
sample_decay = record { half_life_days = 1; dormancy_threshold = 0; dormancy_days = 1 }

apply_decay-IsDecayed_example :
    IsDecayed sample_host sample_decay
      (document (tired_lesson ∷ []))
      (apply_decay sample_host sample_decay "t9" (document (tired_lesson ∷ [])))
apply_decay-IsDecayed_example =
    apply_decay-IsDecayed sample_host sample_decay "t9" (document (tired_lesson ∷ []))

now_is_read : parse_timestamp sample_host "t9" ≡ got 0
unfolding parse_timestamp
now_is_read = refl

lesson-IsDated : IsDated sample_host sample_decay 0 tired_lesson
unfolding days_since parse_timestamp
lesson-IsDated = (0, refl)

apply_decay-returns_example :
    (lessons : List (Lesson ℕ)) × (report : Report) × (apply_decay sample_host sample_decay "t9"
        (document (tired_lesson ∷ []))
      ≡ done report (document lessons))
    × IsReport sample_host sample_decay (tired_lesson ∷ []) (lessons, report)
apply_decay-returns_example =
    apply_decay-returns sample_host sample_decay "t9" 0 (document (tired_lesson ∷ []))
      (refl, refl, refl) refl now_is_read tt (lesson-IsDated, tt)
