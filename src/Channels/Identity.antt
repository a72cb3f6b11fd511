-- ===== src/Channels/Identity.antt =====
-- channels/identity.py: which senders of a channel are bound to an identity, and the pairing.
pub mod Pairing
pub use forge_os.Base.Text.{first_chars}
use Prim.Native.String
use forge_os.Base.{
  ℕ, zero, suc, ◌+◌, String, Bool, true, false, not, ◌&&◌, Option, none, some, List, [], ◌∷◌, ◌++◌,
  ◌<>◌, ◌==◌, if◌then◌else◌, filter, find?, opt_eq,
}
use forge_os.Base.Outcome.{
  Action, done, raised, raise, pure, ◌>>=◌, ◌>>◌, os_error, validation_error,
  channel_already_bound_error,
}
use forge_os.Host.{Host}

pub record ChannelIdentity : Type 0 where
  pub channel_id : String
  pub sender : String
  pub forge_identity : Option String
  pub bound : Bool
  pub pairing_code : Option String

-- `.forge/channels/identities.json`: not there, not readable, or its bindings
pub data IdentityFile : Type 0 where
  missing broken : IdentityFile
  identities : List ChannelIdentity → IdentityFile

-- the file, whether it can be replaced, and the readings of `uuid4` so far
pub record IdentityWorld : Type 0 where
  pub file : IdentityFile
  pub writable : Bool
  pub ticks : ℕ

abbrev pub Paired : Type 0 → Type 0
Paired A = Action IdentityWorld A

abbrev pub is_of : String → String → ChannelIdentity → Bool
is_of channel_id sender identity =
    (identity.channel_id == channel_id) && (identity.sender == sender)

abbrev load_file : IdentityFile → Paired (List ChannelIdentity)
load_file missing = pure []
load_file broken = raise validation_error
load_file (identities all) = pure all

-- `_load_all`
unfoldable pub load_all : Paired (List ChannelIdentity)
load_all w = load_file w.file w

-- `_write`
unfoldable pub write : List ChannelIdentity → Paired (Unit {0})
write all w =
    if w.writable
    then done tt (record w { file = identities all })
    else raised (os_error "identities.json") w

unfoldable pub get : String → String → Paired (Option ChannelIdentity)
unfolding load_all
get channel_id sender = do all ← load_all; pure (find? (is_of channel_id sender) all)

abbrev pub bound_of : Option ChannelIdentity → Bool
bound_of none = false
bound_of (some identity) = identity.bound

unfoldable pub is_bound : String → String → Paired Bool
unfolding get
is_bound channel_id sender = do identity ← get channel_id sender; pure (bound_of identity)

abbrev pub replaced : ChannelIdentity → List ChannelIdentity → List ChannelIdentity
replaced identity all =
    filter (λ e. not (is_of identity.channel_id identity.sender e)) all ++ identity ∷ []

-- `_upsert`
unfoldable pub upsert : ChannelIdentity → Paired (Unit {0})
unfolding load_all write
upsert identity = do all ← load_all; write (replaced identity all)

abbrev pub unbound : String → String → String → ChannelIdentity
unbound channel_id sender code = record {
  channel_id = channel_id;
  sender = sender;
  forge_identity = none;
  bound = false;
  pairing_code = some code;
}

abbrev pub confirmed : String → ChannelIdentity → ChannelIdentity
confirmed forge_identity identity = record identity {
  bound = true;
  forge_identity = some forge_identity;
  pairing_code = none;
}

unfoldable pub refuse_bound : Bool → String → String → Paired (Unit {0})
refuse_bound false channel_id sender = pure tt
refuse_bound true channel_id sender = raise (
    channel_already_bound_error (
      "'"
      <> (sender <> ("' on '" <> (channel_id <> "' is already bound; unbind before re-pairing")))))

unfoldable pub confirm_found : Option ChannelIdentity → String → String → Paired Bool
unfolding upsert
confirm_found none pairing_code forge_identity = pure false
confirm_found (some identity) pairing_code forge_identity =
    if opt_eq identity.pairing_code pairing_code
    then (do upsert (confirmed forge_identity identity); pure true)
    else pure false

unfoldable pub confirm : String → String → String → String → Paired Bool
unfolding get confirm_found
confirm channel_id sender pairing_code forge_identity = do
  identity ← get channel_id sender
  confirm_found identity pairing_code forge_identity

module _ (host : Host) where
  -- `uuid4().hex[:8]`: a text of `uuid4` has no dash in its first eight characters
  unfoldable pub new_code : Paired String
  new_code w = done (first_chars 8 (host.uuid w.ticks)) (record w { ticks = w.ticks + 1 })

  unfoldable pub begin_pairing : String → String → Paired String
  unfolding is_bound refuse_bound new_code upsert
  begin_pairing channel_id sender = do
    already ← is_bound channel_id sender
    refuse_bound already channel_id sender
    code ← new_code
    upsert (unbound channel_id sender code)
    pure code
