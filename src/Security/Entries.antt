-- ===== src/Security/Entries.antt =====
-- What an audit leaves in the log.
use mathlib.Core.Path.{subst}
use forge_os.Base.{
  ℕ, ◌+◌, String, Bool, true, false, List, [], ◌∷◌, ◌++◌, ◌≡◌, refl, sym, if◌then◌else◌, inl, inr,
  All, Has, All-mono, Has-append,
}
use forge_os.Base.Outcome.{Outcome, done, raised, after, os_error}
use forge_os.Security.{
  SecurityProfile, SecurityDecision, allowed, denied, warned, failed, SecurityAuditEntry,
  SecurityWorld, log, audited,
}

-- the decision lets a command run
abbrev pub LetsRun : SecurityDecision → Type 0
LetsRun allowed = Unit
LetsRun denied = ⊥
LetsRun warned = Unit
LetsRun failed = ⊥

-- an entry of the log lets the command run
abbrev pub IsCovered : List SecurityAuditEntry → List String → Type 0
IsCovered entries command =
    (e : SecurityAuditEntry) × (Has e entries
      × ((e.action ≡ "execute_command") × ((e.target ≡ command) × LetsRun e.decision)))

abbrev pub IsAudited : SecurityWorld → Type 0
IsAudited w = All (λ run. IsCovered w.log run.0) w.runs

IsCovered-append :
    (entries more : List SecurityAuditEntry) (command : List String)
    → IsCovered entries command
    → IsCovered (entries ++ more) command
IsCovered-append entries more command (e, (m, rest)) =
    (e, (Has-append e entries more (inl m), rest))

pub log-IsAudited :
    (e : SecurityAuditEntry) (w : SecurityWorld) → IsAudited w → IsAudited (after (log e w))
unfolding log
log-IsAudited e w h = go w.log_writable
  where
    go :
        (b : Bool)
        → IsAudited (
            after {A = Unit {0}} (
              if b
              then done tt (record w { log = w.log ++ e ∷ []; tick = w.tick + 1 })
              else raised (os_error "security-audit.jsonl") w))
    go true =
        All-mono (λ run. IsCovered w.log run.0) (λ run. IsCovered (w.log ++ e ∷ []) run.0)
          (λ run c. IsCovered-append w.log (e ∷ []) run.0 c) w.runs h
    go false = h

-- what holds after an audit of a decision on a command
abbrev pub Noted : SecurityDecision → List String → Outcome SecurityWorld (Unit {0}) → Type 0
Noted d command (done _ v) = IsAudited v × (LetsRun d → IsCovered v.log command)
Noted d command (raised e v) = IsAudited v

pub log-Noted :
    (d : SecurityDecision) (command : List String) (e : SecurityAuditEntry) (w : SecurityWorld)
    → e.action ≡ "execute_command"
    → e.target ≡ command
    → e.decision ≡ d
    → IsAudited w
    → Noted d command (log e w)
unfolding log
log-Noted d command e w ea et ed h = go w.log_writable
  where
    grown : IsAudited (record w { log = w.log ++ e ∷ []; tick = w.tick + 1 })
    grown =
        All-mono (λ run. IsCovered w.log run.0) (λ run. IsCovered (w.log ++ e ∷ []) run.0)
          (λ run c. IsCovered-append w.log (e ∷ []) run.0 c) w.runs h

    go :
        (b : Bool)
        → Noted d command (
            if b
            then done tt (record w { log = w.log ++ e ∷ []; tick = w.tick + 1 })
            else raised (os_error "security-audit.jsonl") w)
    go true = (
      grown,
      λ l.
          (e, (Has-append e w.log (e ∷ []) (inr (inl refl)), (ea, (et, subst LetsRun (sym ed) l)))),
    )
    go false = h

pub audited-audited :
    (profile : SecurityProfile) (entry : ℕ → SecurityAuditEntry) (w : SecurityWorld)
    → IsAudited w
    → IsAudited (after (audited profile entry w))
unfolding audited
audited-audited profile entry w h = go profile.audit_enabled
  where
    go : (b : Bool) → IsAudited (after (if b then log (entry w.tick) w else done tt w))
    go true = log-IsAudited (entry w.tick) w h
    go false = h

pub audited-Noted :
    (profile : SecurityProfile) (d : SecurityDecision) (command : List String)
    (entry : ℕ → SecurityAuditEntry) (w : SecurityWorld)
    → profile.audit_enabled ≡ true
    → Noted d command (log (entry w.tick) w)
    → Noted d command (audited profile entry w)
unfolding audited
audited-Noted profile d command entry w e h = rw e h
