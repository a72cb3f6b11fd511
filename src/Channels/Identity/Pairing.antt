-- ===== src/Channels/Identity/Pairing.antt =====
-- channels/identity.py: the pairing as a state machine for each sender of a channel.
pub mod Worlds
pub mod Refines
use forge_os.Base.{
  ℕ, ◌+◌, String, Bool, true, false, not, ◌&&◌, ◌||◌, Option, none, some, List, [], ◌∷◌, ◌++◌, ◌≡◌,
  refl, sym, ap, ◌∙◌, arith, ◌==◌, eq_iff, if◌then◌else◌, filter, find?, opt_eq, All, All-append,
  All-filter, Bool-cases, inl, inr,
}
use forge_os.Base.Outcome.{Outcome, done, raised, after, pure, ◌>>=◌, ◌>>◌}
use forge_os.Host.{Host}
use forge_os.Channels.Identity.{
  ChannelIdentity, IdentityFile, missing, broken, identities, IdentityWorld, is_of, replaced,
  unbound, confirmed, first_chars, bound_of, load_all, write, get, is_bound, upsert, confirm,
  new_code, begin_pairing, refuse_bound, confirm_found,
}

-- What a sender is to the project: unknown, waiting for a code to be confirmed, or bound to an
-- identity.
pub data Pairing : Type 0 where
  unknown : Pairing
  waiting : Option String → Pairing
  bound_to : Option String → Pairing

abbrev pub pairing_of : Option ChannelIdentity → Pairing
pairing_of none = unknown
pairing_of (some i) = if i.bound then bound_to i.forge_identity else waiting i.pairing_code

-- The specification: the pairing of every sender, and how many codes were drawn.
pub record Pairings : Type 0 where
  pub of : String → String → Pairing
  pub drawn : ℕ

abbrev same_sender : String → String → String → String → Bool
same_sender c s d t = (c == d) && (s == t)

abbrev set_pairing : String → String → Pairing → Pairings → String → String → Pairing
set_pairing c s p ps d t = if same_sender c s d t then p else ps.of d t

pub data IdentityCall : Type 0 where
  begin_call : String → String → IdentityCall
  confirm_call : String → String → String → String → IdentityCall

abbrev draw : String → String → String → Pairing → Pairings → Pairings
draw c s code (bound_to name) ps = ps
draw c s code _ ps = record { of = set_pairing c s (waiting (some code)) ps; drawn = ps.drawn + 1 }

abbrev bind_if : Bool → String → String → String → Pairings → Pairings
bind_if true c s name ps = record ps { of = set_pairing c s (bound_to (some name)) ps }
bind_if false c s name ps = ps

abbrev bind_sender : String → String → String → String → Pairing → Pairings → Pairings
bind_sender c s code name unknown ps = ps
bind_sender c s code name (bound_to other) ps = ps
bind_sender c s code name (waiting expected) ps = bind_if (opt_eq expected code) c s name ps

module _ (host : Host) where
  abbrev pub pairing_step : IdentityCall → Pairings → Pairings
  pairing_step (begin_call c s) ps = draw c s (first_chars 8 (host.uuid ps.drawn)) (ps.of c s) ps
  pairing_step (confirm_call c s code name) ps = bind_sender c s code name (ps.of c s) ps

  abbrev pub pairing_steps : List IdentityCall → Pairings → Pairings
  pairing_steps [] ps = ps
  pairing_steps (k ∷ ks) ps = pairing_steps ks (pairing_step k ps)

  unfoldable pub run_call : IdentityCall → IdentityWorld → IdentityWorld
  run_call (begin_call c s) w = after (begin_pairing host c s w)
  run_call (confirm_call c s code name) w = after (confirm c s code name w)

  unfoldable pub run_identity_calls : List IdentityCall → IdentityWorld → IdentityWorld
  unfolding run_call
  run_identity_calls [] w = w
  run_identity_calls (k ∷ ks) w = run_identity_calls ks (run_call k w)

abbrev pub bindings : IdentityFile → List ChannelIdentity
bindings missing = []
bindings broken = []
bindings (identities all) = all

abbrev pub found : String → String → IdentityFile → Option ChannelIdentity
found c s file = find? (is_of c s) (bindings file)

abbrev pub pairings_of : IdentityWorld → Pairings
pairings_of w = record { of = λ c s. pairing_of (found c s w.file); drawn = w.ticks }

-- a bound sender has no code that could be confirmed again
abbrev pub IsSpent : ChannelIdentity → Type 0
IsSpent i = i.bound ≡ true → i.pairing_code ≡ none

abbrev pub IsStoreFile : IdentityFile → Type 0
IsStoreFile missing = Unit
IsStoreFile broken = ⊥
IsStoreFile (identities all) = All IsSpent all

find?-replaced :
    (i : ChannelIdentity) (d t : String) (all : List ChannelIdentity)
    → find? (is_of d t) (replaced i all)
      ≡ (if same_sender i.channel_id i.sender d t then some i else find? (is_of d t) all)
find?-replaced i d t [] = refl
find?-replaced i d t (e ∷ es) = ground (
  arith,
  find?-replaced i d t es,
  eq_iff e.channel_id i.channel_id,
  eq_iff e.sender i.sender,
  eq_iff e.channel_id d,
  eq_iff e.sender t,
  eq_iff i.channel_id d,
  eq_iff i.sender t,
)
