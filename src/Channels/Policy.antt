-- ===== src/Channels/Policy.antt =====
-- channels/policy.py: what a sender of a channel may do.
pub mod Authorized
use forge_os.Base.{
  String, Bool, true, false, Option, none, some, List, [], ◌∷◌, ◌<>◌, if◌then◌else◌, contains,
}
use forge_os.Base.Outcome.{raise, pure, ◌>>=◌, unbound_sender_error, channel_permission_error}
use forge_os.Host.{Host}
use forge_os.Security.{SecurityProfile, SecurityDecision, allowed, Secured, validate_action}
use forge_os.Channels.Identity.{ChannelIdentity}

abbrev pub unbound_allowed : List String
unbound_allowed = "status" ∷ "feedback" ∷ []

unfoldable pub require_allowed : String → SecurityDecision → Secured (Unit {0})
require_allowed action allowed = pure tt
require_allowed action _ = raise (
    channel_permission_error
      ("channel action '" <> (action <> "' not allowed by the security profile")))

unfoldable pub refuse_unbound : String → Secured (Unit {0})
refuse_unbound action =
    raise (
      unbound_sender_error ("sender must bind a Forge identity before action '" <> (action <> "'")))

module _ (host : Host) (profile : SecurityProfile) where
  unfoldable pub authorize_bound : String → ChannelIdentity → Secured (Unit {0})
  unfolding require_allowed
  authorize_bound action identity = do
    decision ← validate_action host profile identity.sender ("channel_" <> action) [] (some action)
    require_allowed action decision

  unfoldable pub authorize_identity : String → Option ChannelIdentity → Secured (Unit {0})
  unfolding refuse_unbound authorize_bound
  authorize_identity action none = refuse_unbound action
  authorize_identity action (some identity) =
      if identity.bound then authorize_bound action identity else refuse_unbound action

  unfoldable pub authorize_channel_action : String → Option ChannelIdentity → Secured (Unit {0})
  unfolding authorize_identity
  authorize_channel_action action identity =
      if contains unbound_allowed action then pure tt else authorize_identity action identity
