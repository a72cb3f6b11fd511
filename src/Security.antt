-- ===== src/Security.antt =====
-- project/security_enforcer.py, project/security_audit.py, schemas/security.py: which actions the
-- security profile allows, the audit log, and the commands that run under it.
pub mod Entries
pub mod Audited
pub mod Denied
use forge_os.Base.{
  ℕ, zero, suc, ◌+◌, String, Bool, true, false, Option, none, some, List, [], ◌∷◌, ◌++◌, ◌<>◌,
  if◌then◌else◌, ◌==◌, find?, opt_eq,
}
use forge_os.Base.Outcome.{
  Action, Outcome, done, raised, raise, pure, ◌>>=◌, ◌>>◌, permission_error, timeout_error,
  os_error,
}
use forge_os.Host.{Host, CommandRun, exited, killed, timed_out, not_run}

pub data SecurityPolicy : Type 0 where
  allow deny prompt : SecurityPolicy

pub data SecurityDecision : Type 0 where
  allowed denied warned failed : SecurityDecision

pub record CapabilityRule : Type 0 where
  pub capability : String
  pub policy : SecurityPolicy
  pub requires_approval : Bool
  pub timeout_seconds : Option ℕ

pub record SecurityProfile : Type 0 where
  pub profile_id : String
  pub default_policy : SecurityPolicy
  pub capabilities : List CapabilityRule
  pub audit_enabled : Bool

-- an actor by its name; a target is the command
pub record SecurityAuditEntry : Type 0 where
  pub audit_id : String
  pub timestamp : String
  pub actor : String
  pub action : String
  pub target : List String
  pub capability : Option String
  pub decision : SecurityDecision
  pub reason : String
  pub redactions : List String

-- The audit log's file and whether it can be written, the commands that `subprocess.run` was given
-- with their timeouts, and the readings of the clock so far.
pub record SecurityWorld : Type 0 where
  pub log : List SecurityAuditEntry
  pub log_writable : Bool
  pub runs : List (List String × ℕ)
  pub tick : ℕ

abbrev pub Secured : Type 0 → Type 0
Secured A = Action SecurityWorld A

-- `SecurityAuditLog.log`
unfoldable pub log : SecurityAuditEntry → Secured (Unit {0})
log entry w =
    if w.log_writable
    then done tt (record w { log = w.log ++ entry ∷ []; tick = w.tick + 1 })
    else raised (os_error "security-audit.jsonl") w

-- `SecurityAuditLog.read_all`
unfoldable pub read_all : Secured (List SecurityAuditEntry)
read_all w = done w.log w

show_policy : SecurityPolicy → String
show_policy allow = "allow"
show_policy deny = "deny"
show_policy prompt = "prompt"

unfoldable pub policy_of : SecurityProfile → Option String → SecurityPolicy
policy_of profile capability =
    elim (find? (λ r. opt_eq capability r.capability) profile.capabilities) [
      | none ↦ profile.default_policy
      | some rule ↦ rule.policy
    ]

unfoldable pub decide_policy : SecurityPolicy → SecurityDecision
decide_policy allow = allowed
decide_policy deny = denied
decide_policy prompt = warned

-- the entry is written where the profile asks for it
unfoldable pub audited : SecurityProfile → (ℕ → SecurityAuditEntry) → Secured (Unit {0})
unfolding log
audited profile entry w = if profile.audit_enabled then log (entry w.tick) w else done tt w

module _ (host : Host) where
  entry_at :
      ℕ
      → String
      → String
      → String
      → List String
      → Option String
      → SecurityDecision
      → String
      → SecurityAuditEntry
  entry_at tick prefix actor action target capability decision reason = record {
    audit_id = prefix <> host.show_nat (host.elapsed_ms tick);
    timestamp = host.utc_now tick;
    actor = actor;
    action = action;
    target = target;
    capability = capability;
    decision = decision;
    reason = reason;
    redactions = [];
  }

  -- the entry of a decision, and of a timeout
  unfoldable pub policy_entry :
      SecurityProfile → String → String → List String → Option String → ℕ → SecurityAuditEntry
  unfolding policy_of decide_policy entry_at show_policy
  policy_entry profile actor action target capability tick =
      let policy = policy_of profile capability in
      entry_at tick "AUD-" actor action target capability (decide_policy policy)
        ("Policy " <> (show_policy policy <> " applied"))

  unfoldable pub timeout_message : ℕ → String
  timeout_message timeout = "Command timed out after " <> (host.show_nat timeout <> "s")

  unfoldable pub timeout_entry : String → List String → ℕ → ℕ → SecurityAuditEntry
  unfolding entry_at timeout_message
  timeout_entry actor command timeout tick =
      entry_at tick "AUD-TO-" actor "execute_command_timeout" command (some "shell") failed
        (timeout_message timeout)

  unfoldable pub validate_action :
      SecurityProfile → String → String → List String → Option String → Secured SecurityDecision
  unfolding policy_of decide_policy audited policy_entry
  validate_action profile actor action target capability = do
    audited profile (policy_entry profile actor action target capability)
    pure (decide_policy (policy_of profile capability))

  -- `timeout or 30`
  unfoldable pub effective_timeout : Option ℕ → ℕ
  effective_timeout none = 30
  effective_timeout (some zero) = 30
  effective_timeout (some (suc n)) = suc n

  -- `subprocess.run` and its `except`
  unfoldable pub spawn : SecurityProfile → String → List String → ℕ → Secured CommandRun
  unfolding audited timeout_entry timeout_message
  spawn profile actor command timeout w =
      let v = record w { runs = w.runs ++ (command, timeout) ∷ [] } in
      elim (host.run_command command timeout) [
        | exited code out err ↦ done (exited code out err) v
        | killed signal out err ↦ done (killed signal out err) v
        | not_run message ↦ raised (os_error message) v
        | timed_out ↦
            (do
              audited profile (timeout_entry actor command timeout)
              raise (timeout_error (timeout_message timeout)))
              v
      ]

  refuse_if_denied : SecurityDecision → List String → Secured (Unit {0})
  refuse_if_denied denied command = raise (
      permission_error ("Command execution denied by security profile: " <> host.show_list command))
  refuse_if_denied _ command = pure tt

  unfoldable pub run_command :
      SecurityProfile → String → List String → Option ℕ → Secured CommandRun
  unfolding validate_action refuse_if_denied spawn effective_timeout
  run_command profile actor command timeout = do
    decision ← validate_action profile actor "execute_command" command (some "shell")
    refuse_if_denied decision command
    spawn profile actor command (effective_timeout timeout)
