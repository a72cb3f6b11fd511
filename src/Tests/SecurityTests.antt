-- ===== src/Tests/SecurityTests.antt =====
-- The security enforcer's theorems at two profiles.
use forge_os.Base.{true, false, none, some, List, [], ◌∷◌, ◌≡◌, refl}
use forge_os.Base.Outcome.{returned, after}
use forge_os.Security.{
  SecurityProfile, SecurityPolicy, deny, prompt, SecurityWorld, policy_of, run_command,
}
use forge_os.Security.Entries.{IsAudited}
use forge_os.Security.Audited.{
  SecurityCall, validate, command, run_security_calls, run_security_calls-IsAudited,
}
use forge_os.Security.Denied.{denied_never_runs}
use forge_os.Tests.Sample.{sample_host}

abbrev sample_profile : SecurityPolicy → SecurityProfile
sample_profile policy = record {
  profile_id = "strict";
  default_policy = deny;
  capabilities =
      record {
        capability = "shell";
        policy = policy;
        requires_approval = false;
        timeout_seconds = none;
      }
      ∷ [];
  audit_enabled = true;
}

abbrev quiet_world : SecurityWorld
quiet_world = record { log = []; log_writable = true; runs = []; tick = 0 }

abbrev sample_calls : List SecurityCall
sample_calls =
    validate "agent" "read" [] (some "files") ∷ command "agent" ("make" ∷ "test" ∷ []) none ∷ []

run_security_calls-IsAudited_example :
    IsAudited (run_security_calls sample_host (sample_profile prompt) sample_calls quiet_world)
run_security_calls-IsAudited_example =
    run_security_calls-IsAudited sample_host (sample_profile prompt) sample_calls quiet_world refl
      tt

shell_is_denied : policy_of (sample_profile deny) (some "shell") ≡ deny
unfolding policy_of
shell_is_denied = refl

denied_never_runs_example :
    (returned (run_command sample_host (sample_profile deny) "agent" ("make" ∷ []) none quiet_world)
      ≡ false)
    × ((after (
          run_command sample_host
            (sample_profile deny)
            "agent"
            ("make" ∷ [])
            none
            quiet_world)).runs
        ≡ quiet_world.runs)
denied_never_runs_example =
    denied_never_runs sample_host (sample_profile deny) "agent" ("make" ∷ []) none quiet_world
      shell_is_denied
