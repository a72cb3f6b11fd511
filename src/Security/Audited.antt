-- ===== src/Security/Audited.antt =====
-- Every command that ran stands in the audit log, with a decision that lets it run.
use forge_os.Base.{ℕ, String, true, Option, some, List, [], ◌∷◌, ◌++◌, ◌≡◌, refl, All-append}
use forge_os.Base.Outcome.{
  Outcome, done, raised, after, raise, pure, ◌>>=◌, ◌>>◌, timeout_error, os_error,
}
use forge_os.Host.{Host, CommandRun, exited, killed, timed_out, not_run}
use forge_os.Security.{
  SecurityProfile, SecurityPolicy, allow, deny, prompt, SecurityDecision, SecurityAuditEntry,
  SecurityWorld, Secured, audited, entry_at, validate_action, policy_of, decide_policy, spawn,
  effective_timeout, policy_entry, timeout_entry, timeout_message, refuse_if_denied, run_command,
}
use forge_os.Security.Entries.{
  LetsRun, IsCovered, IsAudited, Noted, log-Noted, audited-audited, audited-Noted,
}

module _ (host : Host) where
  validate_action-IsAudited :
      (profile : SecurityProfile) (actor action : String) (target : List String)
      (capability : Option String) (w : SecurityWorld)
      → IsAudited w
      → IsAudited (after (validate_action host profile actor action target capability w))
  unfolding validate_action
  validate_action-IsAudited profile actor action target capability w h =
      go (audited profile (policy_entry host profile actor action target capability) w)
        (audited-audited profile (policy_entry host profile actor action target capability) w h)
    where
      go :
          (o : Outcome SecurityWorld (Unit {0}))
          → IsAudited (after o)
          → IsAudited (after (((λ _. o) >> pure (decide_policy (policy_of profile capability))) w))
      go (done _ v) k = k
      go (raised e v) k = k

  spawn-IsAudited :
      (profile : SecurityProfile) (actor : String) (command : List String) (timeout : ℕ)
      (w : SecurityWorld)
      → IsAudited w
      → IsCovered w.log command
      → IsAudited (after (spawn host profile actor command timeout w))
  unfolding spawn
  spawn-IsAudited profile actor command timeout w h c = go (host.run_command command timeout)
    where
      v : SecurityWorld
      v = record w { runs = w.runs ++ (command, timeout) ∷ [] }

      ran : IsAudited v
      ran = All-append (λ run. IsCovered w.log run.0) w.runs ((command, timeout) ∷ []) h (c, tt)

      stop : Outcome SecurityWorld (Unit {0}) → Outcome SecurityWorld CommandRun
      stop o = ((λ _. o) >> raise (timeout_error (timeout_message host timeout))) v

      stopped :
          (o : Outcome SecurityWorld (Unit {0})) → IsAudited (after o) → IsAudited (after (stop o))
      stopped (done _ u) k = k
      stopped (raised e u) k = k

      go :
          (r : CommandRun)
          → IsAudited (
              after (elim r [
                | exited code out err ↦ done (exited code out err) v
                | killed signal out err ↦ done (killed signal out err) v
                | not_run message ↦ raised (os_error message) v
                | timed_out ↦ stop (audited profile (timeout_entry host actor command timeout) v)
              ]))
      go (exited code out err) = ran
      go (killed signal out err) = ran
      go (not_run message) = ran
      go timed_out =
          stopped (audited profile (timeout_entry host actor command timeout) v)
            (audited-audited profile (timeout_entry host actor command timeout) v ran)

  run_command-IsAudited :
      (profile : SecurityProfile) (actor : String) (command : List String) (timeout : Option ℕ)
      (w : SecurityWorld)
      → profile.audit_enabled ≡ true
      → IsAudited w
      → IsAudited (after (run_command host profile actor command timeout w))
  unfolding run_command validate_action policy_entry entry_at decide_policy refuse_if_denied
  run_command-IsAudited profile actor command timeout w on h = go (audited profile entry w) (
      audited-Noted profile decision command entry w on
        (log-Noted decision command (entry w.tick) w refl refl refl h))
    where
      entry : ℕ → SecurityAuditEntry
      entry = policy_entry host profile actor "execute_command" command (some "shell")

      decision : SecurityDecision
      decision = decide_policy (policy_of profile (some "shell"))

      rest : SecurityDecision → Secured CommandRun
      rest d =
          refuse_if_denied host d command
          >> spawn host profile actor command (effective_timeout host timeout)

      continued :
          (p : SecurityPolicy) (v : SecurityWorld)
          → IsAudited v
          → (LetsRun (decide_policy p) → IsCovered v.log command)
          → IsAudited (after (rest (decide_policy p) v))
      continued allow v k c =
          spawn-IsAudited profile actor command (effective_timeout host timeout) v k (c tt)
      continued deny v k c = k
      continued prompt v k c =
          spawn-IsAudited profile actor command (effective_timeout host timeout) v k (c tt)

      go :
          (o : Outcome SecurityWorld (Unit {0}))
          → Noted decision command o
          → IsAudited (after ((((λ _. o) >> pure decision) >>= rest) w))
      go (done _ v) k = continued (policy_of profile (some "shell")) v k.0 k.1
      go (raised e v) k = k

-- The calls of the enforcer.
pub data SecurityCall : Type 0 where
  validate : String → String → List String → Option String → SecurityCall
  command : String → List String → Option ℕ → SecurityCall

unfoldable pub run_security_calls :
    Host → SecurityProfile → List SecurityCall → SecurityWorld → SecurityWorld
run_security_calls host profile [] w = w
run_security_calls host profile (validate actor action target capability ∷ cs) w =
    run_security_calls host profile cs
      (after (validate_action host profile actor action target capability w))
run_security_calls host profile (command actor args timeout ∷ cs) w =
    run_security_calls host profile cs (after (run_command host profile actor args timeout w))

-- Under a profile that audits, if every command that was given to `subprocess.run` has an entry of
-- its execution in the log, with a decision that lets it run, then so it is after any calls,
-- returning or raising.
pub run_security_calls-IsAudited :
    (host : Host) (profile : SecurityProfile) (calls : List SecurityCall) (w : SecurityWorld)
    → profile.audit_enabled ≡ true
    → IsAudited w
    → IsAudited (run_security_calls host profile calls w)
unfolding run_security_calls
run_security_calls-IsAudited host profile [] w on h = h
run_security_calls-IsAudited host profile (validate actor action target capability ∷ cs) w on h =
    run_security_calls-IsAudited host profile cs
      (after (validate_action host profile actor action target capability w)) on
      (validate_action-IsAudited host profile actor action target capability w h)
run_security_calls-IsAudited host profile (command actor args timeout ∷ cs) w on h =
    run_security_calls-IsAudited host profile cs
      (after (run_command host profile actor args timeout w)) on
      (run_command-IsAudited host profile actor args timeout w on h)
