-- ===== src/Channels/Identity/Pairing/Worlds.antt =====
-- channels/identity.py: what a call of `begin_pairing` or `confirm` leaves.
use forge_os.Base.{
  ℕ, ◌+◌, String, Bool, true, false, Option, none, some, ◌≡◌, refl, if◌then◌else◌, find?, opt_eq,
  Bool-cases, inl, inr,
}
use forge_os.Base.Outcome.{after, pure, ◌>>◌}
use forge_os.Host.{Host}
use forge_os.Channels.Identity.{
  ChannelIdentity, IdentityFile, missing, broken, identities, IdentityWorld, is_of, replaced,
  unbound, confirmed, first_chars, bound_of, load_all, write, get, is_bound, upsert, confirm,
  new_code, begin_pairing, refuse_bound, confirm_found,
}
use forge_os.Channels.Identity.Pairing.{bindings, found, IsStoreFile}

abbrev pub world : IdentityFile → ℕ → IdentityWorld
world file ticks = record { file = file; writable = true; ticks = ticks }

abbrev put : ChannelIdentity → IdentityFile → ℕ → IdentityWorld
put i file ticks = world (identities (replaced i (bindings file))) ticks

abbrev pub put_if : Bool → ChannelIdentity → IdentityFile → ℕ → IdentityWorld
put_if true i file n = put i file n
put_if false i file n = world file n

abbrev pub confirmed_world :
    Option ChannelIdentity → String → String → IdentityFile → ℕ → IdentityWorld
confirmed_world none code name file n = world file n
confirmed_world (some i) code name file n =
    put_if (opt_eq i.pairing_code code) (confirmed name i) file n

pub confirm-after :
    (c s code name : String) (file : IdentityFile) (n : ℕ)
    → IsStoreFile file
    → after (confirm c s code name (world file n))
      ≡ confirmed_world (found c s file) code name file n
unfolding confirm get load_all confirm_found upsert write
confirm-after c s code name missing n h = refl
confirm-after c s code name broken n h = absurd h
confirm-after c s code name (identities all) n h = go (find? (is_of c s) all)
  where
    test :
        (i : ChannelIdentity) (b : Bool)
        → after (
            (if b then (do upsert (confirmed name i); pure true) else pure false)
              (world (identities all) n))
          ≡ put_if b (confirmed name i) (identities all) n
    test i true = refl
    test i false = refl

    go :
        (o : Option ChannelIdentity)
        → after (confirm_found o code name (world (identities all) n))
          ≡ confirmed_world o code name (identities all) n
    go none = refl
    go (some i) = test i (opt_eq i.pairing_code code)

module _ (host : Host) where
  abbrev pub begun : Bool → String → String → IdentityFile → ℕ → IdentityWorld
  begun true c s file n = world file n
  begun false c s file n = put (unbound c s (first_chars 8 (host.uuid n))) file (n + 1)

  pub begin_pairing-after :
      (c s : String) (file : IdentityFile) (n : ℕ)
      → IsStoreFile file
      → after (begin_pairing host c s (world file n)) ≡ begun (bound_of (found c s file)) c s file n
  unfolding begin_pairing is_bound get load_all refuse_bound new_code upsert write
  begin_pairing-after c s missing n h = refl
  begin_pairing-after c s broken n h = absurd h
  begin_pairing-after c s (identities all) n h =
      elim (Bool-cases (bound_of (find? (is_of c s) all))) [ inl e ↦ rw e refl | inr e ↦ rw e refl ]
