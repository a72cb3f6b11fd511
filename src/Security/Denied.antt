-- ===== src/Security/Denied.antt =====
-- A command that the profile denies does not run.
use forge_os.Base.{
  ℕ, String, Bool, true, false, Option, some, List, [], ◌∷◌, ◌++◌, ◌+◌, ◌≡◌, refl, if◌then◌else◌,
}
use forge_os.Base.Outcome.{Outcome, done, raised, after, returned, pure, ◌>>=◌, ◌>>◌, os_error}
use forge_os.Host.{Host, CommandRun}
use forge_os.Security.{
  SecurityProfile, deny, SecurityDecision, SecurityAuditEntry, SecurityWorld, Secured, log, audited,
  validate_action, policy_of, decide_policy, spawn, effective_timeout, policy_entry,
  refuse_if_denied, run_command,
}

log-runs : (e : SecurityAuditEntry) (w : SecurityWorld) → (after (log e w)).runs ≡ w.runs
unfolding log
log-runs e w = go w.log_writable
  where
    go :
        (b : Bool)
        → (after {A = Unit {0}} (
            if b
            then done tt (record w { log = w.log ++ e ∷ []; tick = w.tick + 1 })
            else raised (os_error "security-audit.jsonl") w)).runs
          ≡ w.runs
    go true = refl
    go false = refl

audited-runs :
    (profile : SecurityProfile) (entry : ℕ → SecurityAuditEntry) (w : SecurityWorld)
    → (after (audited profile entry w)).runs ≡ w.runs
unfolding audited
audited-runs profile entry w = go profile.audit_enabled
  where
    go : (b : Bool) → (after (if b then log (entry w.tick) w else done tt w)).runs ≡ w.runs
    go true = log-runs (entry w.tick) w
    go false = refl

-- Where the policy of the capability `shell` is to deny, by its rule or by default, `run_command`
-- raises, and gives no command to `subprocess.run`, whatever the audit log does.
pub denied_never_runs :
    (host : Host) (profile : SecurityProfile) (actor : String) (command : List String)
    (timeout : Option ℕ) (w : SecurityWorld)
    → policy_of profile (some "shell") ≡ deny
    → (returned (run_command host profile actor command timeout w) ≡ false)
      × ((after (run_command host profile actor command timeout w)).runs ≡ w.runs)
unfolding run_command validate_action refuse_if_denied decide_policy
denied_never_runs host profile actor command timeout w h =
    rw h (go (audited profile entry w) (audited-runs profile entry w))
  where
    entry : ℕ → SecurityAuditEntry
    entry = policy_entry host profile actor "execute_command" command (some "shell")

    rest : SecurityDecision → Secured CommandRun
    rest d =
        refuse_if_denied host d command
        >> spawn host profile actor command (effective_timeout host timeout)

    stop : Outcome SecurityWorld (Unit {0}) → Outcome SecurityWorld CommandRun
    stop o = (((λ _. o) >> pure (decide_policy deny)) >>= rest) w

    go :
        (o : Outcome SecurityWorld (Unit {0}))
        → (after o).runs ≡ w.runs
        → (returned (stop o) ≡ false) × ((after (stop o)).runs ≡ w.runs)
    go (done _ v) k = (refl, k)
    go (raised e v) k = (refl, k)
