-- ===== src/Channels/Policy/Authorized.antt =====
-- channels/policy.py with channels/identity.py: who may do more than read and give feedback.
use forge_os.Base.{
  ℕ, String, Bool, true, false, ◌&&◌, ◌||◌, Option, none, some, List, [], ◌<>◌, ◌≡◌, refl, sym, ap,
  ◌∙◌, arith, if◌then◌else◌, contains, inl, inr, ◌⊎◌,
}
use forge_os.Base.Outcome.{Outcome, done, raised, returned, pure, ◌>>=◌, ◌>>◌}
use forge_os.Host.{Host}
use forge_os.Security.{
  SecurityProfile, SecurityPolicy, allow, deny, prompt, SecurityWorld, SecurityAuditEntry,
  validate_action, policy_of, decide_policy, audited, policy_entry, log,
}
use forge_os.Channels.Identity.{
  ChannelIdentity, IdentityFile, IdentityWorld, bound_of, get, load_all, missing, broken,
  identities,
}
use forge_os.Channels.Identity.Pairing.{
  bound_to, pairing_of, IdentityCall, pairing_steps, run_identity_calls, pairings_of, IsStoreFile,
  found,
}
use forge_os.Channels.Identity.Pairing.Worlds.{world}
use forge_os.Channels.Identity.Pairing.Refines.{calls_show}
use forge_os.Channels.Policy.{
  unbound_allowed, require_allowed, refuse_unbound, authorize_bound, authorize_identity,
  authorize_channel_action,
}

abbrev pub is_allow : SecurityPolicy → Bool
is_allow allow = true
is_allow deny = false
is_allow prompt = false

module _ (host : Host) (profile : SecurityProfile) (action : String) (w : SecurityWorld) where
  decided :
      (p : SecurityPolicy) (o : Outcome SecurityWorld (Unit {0}))
      → returned
          ((((λ (_ : SecurityWorld). o) >> pure (decide_policy p)) >>= require_allowed action) w)
        ≡ returned o && is_allow p
  unfolding decide_policy require_allowed
  decided allow (done _ v) = refl
  decided deny (done _ v) = refl
  decided prompt (done _ v) = refl
  decided allow (raised e v) = refl
  decided deny (raised e v) = refl
  decided prompt (raised e v) = refl

  -- whether the audit log takes the entry of the decision
  abbrev logs : ChannelIdentity → Bool
  logs i = returned (
      audited profile (policy_entry host profile i.sender ("channel_" <> action) [] (some action))
        w)

  authorize_bound-eq :
      (i : ChannelIdentity)
      → returned (authorize_bound host profile action i w)
        ≡ logs i && is_allow (policy_of profile (some action))
  unfolding authorize_bound validate_action
  authorize_bound-eq i = decided (policy_of profile (some action)) (
      audited profile (policy_entry host profile i.sender ("channel_" <> action) [] (some action))
        w)

  abbrev permitted : Option ChannelIdentity → Bool
  permitted none = false
  permitted (some i) = i.bound && (logs i && is_allow (policy_of profile (some action)))

  authorize_identity-eq :
      (o : Option ChannelIdentity)
      → returned (authorize_identity host profile action o w) ≡ permitted o
  unfolding authorize_identity refuse_unbound
  authorize_identity-eq none = refl
  authorize_identity-eq (some i) = go i.bound
    where
      go :
          (b : Bool)
          → returned
              ((if b then authorize_bound host profile action i else refuse_unbound action) w)
            ≡ b && (logs i && is_allow (policy_of profile (some action)))
      go true = authorize_bound-eq i
      go false = refl

  authorize-permitted :
      (o : Option ChannelIdentity)
      → returned (authorize_channel_action host profile action o w)
        ≡ contains unbound_allowed action || permitted o
  unfolding authorize_channel_action
  authorize-permitted o = go (contains unbound_allowed action)
    where
      go :
          (b : Bool)
          → returned ((if b then pure tt else authorize_identity host profile action o) w)
            ≡ b || permitted o
      go true = refl
      go false = authorize_identity-eq o

logged :
    (profile : SecurityProfile) (entry : ℕ → SecurityAuditEntry) (w : SecurityWorld)
    → w.log_writable ≡ true
    → returned (audited profile entry w) ≡ true
unfolding audited log
logged profile entry w h = go profile.audit_enabled
  where
    go : (b : Bool) → returned (if b then log (entry w.tick) w else done tt w) ≡ true
    go true = rw h refl
    go false = refl

-- With a log that can be written, an action is let through exactly when it is a status request or
-- feedback, or when the sender is bound and the policy of the action is to allow it.
pub authorize_channel_action-eq :
    (host : Host) (profile : SecurityProfile) (action : String) (o : Option ChannelIdentity)
    (w : SecurityWorld)
    → w.log_writable ≡ true
    → returned (authorize_channel_action host profile action o w)
      ≡ contains unbound_allowed action
        || (bound_of o && is_allow (policy_of profile (some action)))
authorize_channel_action-eq host profile action o w h =
    authorize-permitted host profile action w o
    ∙ ap (λ b. contains unbound_allowed action || b) (go o)
  where
    go :
        (p : Option ChannelIdentity)
        → permitted host profile action w p
          ≡ bound_of p && is_allow (policy_of profile (some action))
    go none = refl
    go (some i) =
        rw
          (logged profile
            (policy_entry host profile i.sender ("channel_" <> action) [] (some action)) w h)
          refl

outcome_value : {W A : Type 0} → Outcome W A → A → A
outcome_value (done a w) b = a
outcome_value (raised e w) b = b

get-found :
    (c s : String) (file : IdentityFile) (n : ℕ) (o : Option ChannelIdentity) (v : IdentityWorld)
    → IsStoreFile file
    → get c s (world file n) ≡ done o v
    → found c s file ≡ o
unfolding get load_all outcome_value
get-found c s missing n o v h e = ap (λ r. outcome_value r none) e
get-found c s broken n o v h e = absurd h
get-found c s (identities all) n o v h e = ap (λ r. outcome_value r none) e

bound_pairing :
    (o : Option ChannelIdentity)
    → bound_of o ≡ true
    → (name : Option String) × (pairing_of o ≡ bound_to name)
bound_pairing none h = absurd (ground arith)
bound_pairing (some i) h = (i.forge_identity, rw h refl)

is_allow_lem : (p : SecurityPolicy) → is_allow p ≡ true → p ≡ allow
is_allow_lem allow h = refl
is_allow_lem deny h = absurd (ground arith)
is_allow_lem prompt h = absurd (ground arith)

-- After any pairing calls on such a store: when an action of a sender, with the identity that the
-- store has for it, is let through, then the action is a status request or feedback, or the calls
-- bound that sender by the specification of the pairing and the policy of the action is to allow
-- it.
pub privileged_needs_pairing :
    (host : Host) (profile : SecurityProfile) (action : String) (calls : List IdentityCall)
    (file : IdentityFile) (n : ℕ) (c s : String) (o : Option ChannelIdentity) (v : IdentityWorld)
    (w : SecurityWorld)
    → IsStoreFile file
    → get c s (run_identity_calls host calls (world file n)) ≡ done o v
    → returned (authorize_channel_action host profile action o w) ≡ true
    → (contains unbound_allowed action ≡ true)
      ⊎ ((name : Option String) × ((pairing_steps host calls (pairings_of (world file n))).of c s
            ≡ bound_to name)
          × (policy_of profile (some action) ≡ allow))
privileged_needs_pairing host profile action calls file n c s o v w h e r =
    let (file', q, h', ag) =
      calls_show host calls file (pairings_of (world file n)) h (λ d t. refl) in
    let f = get-found c s file' _ o v h' (ap (get c s) (sym q) ∙ e) in
    elim (split o (sym (authorize-permitted host profile action w o) ∙ r)) [
      | inl free ↦ inl free
      | inr (b, p) ↦
          let (name, k) = bound_pairing o b in
          inr (name, sym (ag c s) ∙ ap pairing_of f ∙ k, is_allow_lem _ p)
    ]
  where
    split :
        (p : Option ChannelIdentity)
        → contains unbound_allowed action || permitted host profile action w p ≡ true
        → (contains unbound_allowed action ≡ true)
          ⊎ ((bound_of p ≡ true) × (is_allow (policy_of profile (some action)) ≡ true))
    split none t = ground arith
    split (some i) t = ground arith
