-- ===== src/Channels/Identity/Pairing/Refines.antt =====
-- channels/identity.py: the bindings that the calls store are the pairings of the specification.
use forge_os.Base.{
  ℕ, String, Bool, true, false, not, Option, none, some, List, [], ◌∷◌, ◌≡◌, refl, sym, ap, ◌∙◌,
  arith, eq_iff, if◌then◌else◌, filter, find?, opt_eq, All, All-append, All-filter, All-has,
  find?-some,
}
use mathlib.Core.Path.{subst}
use forge_os.Host.{Host}
use forge_os.Channels.Identity.{
  ChannelIdentity, IdentityFile, missing, broken, identities, IdentityWorld, is_of, replaced,
  unbound, confirmed, first_chars, bound_of,
}
use forge_os.Channels.Identity.Pairing.{
  Pairing, unknown, waiting, bound_to, pairing_of, Pairings, same_sender, set_pairing, IdentityCall,
  begin_call, confirm_call, draw, bind_if, bind_sender, pairing_step, pairing_steps, run_call,
  run_identity_calls, bindings, found, pairings_of, IsSpent, IsStoreFile, find?-replaced,
}
use forge_os.Channels.Identity.Pairing.Worlds.{
  put_if, confirmed_world, confirm-after, begun, begin_pairing-after, world,
}

module _ (file : IdentityFile) (ps : Pairings) where
  abbrev pub Agrees : Type 0
  Agrees = (d t : String) → pairing_of (found d t file) ≡ ps.of d t

  put-agrees :
      (i : ChannelIdentity) (p : Pairing)
      → Agrees
      → pairing_of (some i) ≡ p
      → (d t : String)
      → pairing_of (find? (is_of d t) (replaced i (bindings file)))
        ≡ set_pairing i.channel_id i.sender p ps d t
  put-agrees i p h e d t =
      ap pairing_of (find?-replaced i d t (bindings file))
      ∙ go (same_sender i.channel_id i.sender d t)
    where
      go :
          (b : Bool)
          → pairing_of (if b then some i else found d t file) ≡ (if b then p else ps.of d t)
      go true = e
      go false = h d t

IsSpent-bindings : (file : IdentityFile) → IsStoreFile file → All IsSpent (bindings file)
IsSpent-bindings missing h = tt
IsSpent-bindings broken h = tt
IsSpent-bindings (identities all) h = h

put-IsStoreFile :
    (i : ChannelIdentity) (file : IdentityFile)
    → IsSpent i
    → IsStoreFile file
    → All IsSpent (replaced i (bindings file))
put-IsStoreFile i file h k =
    All-append IsSpent (filter (λ e. not (is_of i.channel_id i.sender e)) (bindings file)) (i ∷ [])
      (All-filter IsSpent (λ e. not (is_of i.channel_id i.sender e)) (bindings file)
        (IsSpent-bindings file k))
      (h, tt)

-- the world is one whose store is in order and agrees with the pairings
abbrev pub Shows : IdentityWorld → Pairings → Type 0
Shows w ps = (file : IdentityFile) × (w ≡ world file ps.drawn) × IsStoreFile file × Agrees file ps

stored_as :
    (c s : String) (file : IdentityFile) (i : ChannelIdentity)
    → IsStoreFile file
    → found c s file ≡ some i
    → (i.channel_id ≡ c) × (i.sender ≡ s) × IsSpent i
stored_as c s file i h e =
    let (m, k) = find?-some (is_of c s) (bindings file) i e in
    (
      ground (arith, eq_iff i.channel_id c),
      ground (arith, eq_iff i.sender s),
      All-has IsSpent i (bindings file) (IsSpent-bindings file h) m,
    )

module _ (host : Host) (c s : String) (file : IdentityFile) (ps : Pairings) (h : IsStoreFile file)
    (ag : Agrees file ps) where
  fresh :
      (p : Pairing)
      → draw c s (first_chars 8 (host.uuid ps.drawn)) p ps
        ≡ draw c s (first_chars 8 (host.uuid ps.drawn)) unknown ps
      → Shows
          (begun host false c s file ps.drawn)
          (draw c s (first_chars 8 (host.uuid ps.drawn)) p ps)
  fresh p e = subst (Shows (begun host false c s file ps.drawn)) (sym e) (
      let i = unbound c s (first_chars 8 (host.uuid ps.drawn)) in
      (
        identities (replaced i (bindings file)),
        refl,
        put-IsStoreFile i file (λ e'. absurd (ground arith)) h,
        put-agrees file ps i (waiting (some (first_chars 8 (host.uuid ps.drawn)))) ag refl,
      ))

  begun_shows :
      (o : Option ChannelIdentity)
      → Shows
          (begun host (bound_of o) c s file ps.drawn)
          (draw c s (first_chars 8 (host.uuid ps.drawn)) (pairing_of o) ps)
  begun_shows none = fresh unknown refl
  begun_shows (some i) = go i.bound
    where
      go :
          (b : Bool)
          → Shows (begun host b c s file ps.drawn) (
              draw c s
                (first_chars 8 (host.uuid ps.drawn))
                (if b then bound_to i.forge_identity else waiting i.pairing_code)
                ps)
      go true = (file, refl, h, ag)
      go false = fresh (waiting i.pairing_code) refl

  confirm_shows :
      (code name : String) (o : Option ChannelIdentity)
      → found c s file ≡ o
      → Shows
          (confirmed_world o code name file ps.drawn)
          (bind_sender c s code name (pairing_of o) ps)
  confirm_shows code name none e = (file, refl, h, ag)
  confirm_shows code name (some i) e = go i.bound refl
    where
      parts : (i.channel_id ≡ c) × (i.sender ≡ s) × IsSpent i
      parts = stored_as c s file i h e

      bind : (b : Bool) → Shows (put_if b (confirmed name i) file ps.drawn) (bind_if b c s name ps)
      bind true = (
        identities (replaced (confirmed name i) (bindings file)),
        refl,
        put-IsStoreFile (confirmed name i) file (λ e'. refl) h,
        subst
            (λ x.
              (d t : String)
              → pairing_of (find? (is_of d t) (replaced (confirmed name i) (bindings file)))
                ≡ set_pairing c x (bound_to (some name)) ps d t)
            parts.1
            (subst
              (λ x.
                (d t : String)
                → pairing_of (find? (is_of d t) (replaced (confirmed name i) (bindings file)))
                  ≡ set_pairing x i.sender (bound_to (some name)) ps d t)
              parts.0 (put-agrees file ps (confirmed name i) (bound_to (some name)) ag refl)),
      )
      bind false = (file, refl, h, ag)

      go :
          (b : Bool)
          → i.bound ≡ b
          → Shows (confirmed_world (some i) code name file ps.drawn) (
              bind_sender c s code name
                (if b then bound_to i.forge_identity else waiting i.pairing_code)
                ps)
      go true k = rw (parts.2 k) (file, refl, h, ag)
      go false k = bind (opt_eq i.pairing_code code)

call_shows :
    (host : Host) (call : IdentityCall) (file : IdentityFile) (ps : Pairings)
    → IsStoreFile file
    → Agrees file ps
    → Shows (run_call host call (world file ps.drawn)) (pairing_step host call ps)
unfolding run_call
call_shows host (begin_call c s) file ps h ag =
    subst (λ w. Shows w (draw c s (first_chars 8 (host.uuid ps.drawn)) (ps.of c s) ps))
      (sym (begin_pairing-after host c s file ps.drawn h))
      (subst
        (λ p.
          Shows (begun host (bound_of (found c s file)) c s file ps.drawn)
            (draw c s (first_chars 8 (host.uuid ps.drawn)) p ps))
        (ag c s) (begun_shows host c s file ps h ag (found c s file)))
call_shows host (confirm_call c s code name) file ps h ag =
    subst (λ w. Shows w (bind_sender c s code name (ps.of c s) ps))
      (sym (confirm-after c s code name file ps.drawn h))
      (subst
        (λ p.
          Shows (confirmed_world (found c s file) code name file ps.drawn)
            (bind_sender c s code name p ps))
        (ag c s) (confirm_shows host c s file ps h ag code name (found c s file) refl))

pub calls_show :
    (host : Host) (calls : List IdentityCall) (file : IdentityFile) (ps : Pairings)
    → IsStoreFile file
    → Agrees file ps
    → Shows (run_identity_calls host calls (world file ps.drawn)) (pairing_steps host calls ps)
unfolding run_identity_calls
calls_show host [] file ps h ag = (file, refl, h, ag)
calls_show host (k ∷ ks) file ps h ag =
    let (file', e, h', ag') = call_shows host k file ps h ag in
    subst
      (λ w. Shows (run_identity_calls host ks w) (pairing_steps host ks (pairing_step host k ps)))
      (sym e) (calls_show host ks file' (pairing_step host k ps) h' ag')

-- From a store of bindings that can be read and written, in which no bound sender has a code left,
-- any calls of `begin_pairing` and `confirm` leave every sender in the state of the specification:
-- a pairing gives a sender that is not bound the next code, and binds it only when that code is
-- confirmed; one that is bound stays so.
pub identity_calls_refine :
    (host : Host) (calls : List IdentityCall) (file : IdentityFile) (n : ℕ) (c s : String)
    → IsStoreFile file
    → pairing_of (found c s (run_identity_calls host calls (world file n)).file)
      ≡ (pairing_steps host calls (pairings_of (world file n))).of c s
identity_calls_refine host calls file n c s h =
    let (file', e, _, ag) =
      calls_show host calls file (pairings_of (world file n)) h (λ d t. refl) in
    ap (λ w. pairing_of (found c s w.file)) e ∙ ag c s
