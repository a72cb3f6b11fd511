-- ===== src/Pipeline/Manager/Keeping.antt =====
-- Rules for what the manager's methods leave in `.forge/state.json`, on return and on an error.
use forge_os.Base.{
  ℕ, String, Bool, true, false, Option, none, some, List, ◌≡◌, refl, ap, sym, ◌∙◌, arith,
  if◌then◌else◌, Bool-cases, inl, inr,
}
pub mod Saves
use mathlib.Core.Path.{subst}
use mathlib.Core.Option.{some-injective}
use forge_os.Base.Outcome.{
  Action, Outcome, done, raised, after, raise, pure, Error, state_error, atomic_write_error,
  config_error, ◌>>=◌, ◌>>◌,
}
use forge_os.Events.Bus.{Bus}
use forge_os.Memory.Reflections.{Memory}
use forge_os.Host.{Host}
use forge_os.Pipeline.State.{PipelineState}
use forge_os.Pipeline.World.{
  World, Managed, ForgeConfig, markdown_path, state_path, load, load_config, clock, write_state,
  write_markdown, on_bus, on_memory,
}
use forge_os.Pipeline.Saving.{
  dual_write, save, emit_transition, log_transition, render_state_markdown,
}
use forge_os.Pipeline.Manager.{raise_if, require, check_previous, entered}
use forge_os.Pipeline.Manager.Spec.{View, view, prev_ok}

module _ (host : Host) where
  -- what `C` says of the view of the state in the file, if there is a valid one
  abbrev pub Holds : (View → Type 0) → World host → Type 0
  Holds C w = (s : PipelineState) → w.state_file ≡ some s → C (view s)

  abbrev pub Ends :
      {A : Type 0}
      → Outcome (World host) A
      → (A → Type 0)
      → (View → Type 0)
      → (View → Type 0)
      → Type 0
  Ends (done a w) R D E = R a × Holds D w
  Ends (raised e w) R D E = Holds E w

  -- the same of the state file as a value
  abbrev pub IfState : (View → Type 0) → Option PipelineState → Type 0
  IfState C none = Unit
  IfState C (some s) = C (view s)

  pub Holds-if : (C : View → Type 0) (w : World host) → Holds C w → IfState C w.state_file
  Holds-if C w h = go w.state_file refl
    where
      go : (o : Option PipelineState) → w.state_file ≡ o → IfState C o
      go none e = tt
      go (some s) e = h s e

  pub if-Holds : (C : View → Type 0) (w : World host) → IfState C w.state_file → Holds C w
  if-Holds C w h s e = subst (IfState C) e h

  -- From a file with `C`, a return of `a` leaves a file with `D` and fulfils `R a`, and an error
  -- leaves a file with `E`.
  pub record Triple {A : Type 0} (C : View → Type 0) (m : Managed host A) (R : A → Type 0)
      (D E : View → Type 0) : Type 0 where
    pub run : (w : World host) → Holds C w → Ends (m w) R D E

  module _ {A B : Type 0} {C D F E : View → Type 0} {R : A → Type 0} {S : B → Type 0} where
    pub bind :
        (m : Managed host A) (f : A → Managed host B)
        → Triple C m R D E
        → ((a : A) → R a → Triple D (f a) S F E)
        → Triple C (m >>= f) S F E
    bind m f tm tf = record { run = λ w h. continue (m w) (tm.run w h) }
      where
        continue :
            (o : Outcome (World host) A)
            → Ends o R D E
            → Ends (elim o [ done a v ↦ f a v | raised e v ↦ raised e v ]) S F E
        continue (done a v) (r, h) = (tf a r).run v h
        continue (raised e v) h = h

  pub forget :
      {A : Type 0} {C D E : View → Type 0} {R : A → Type 0} (m : Managed host A)
      → Triple C m R D E
      → Triple C m (λ _. Unit {0}) D E
  forget {A} {D = D} {E = E} {R = R} m t = record { run = λ w h. split (m w) (t.run w h) }
    where
      split : (o : Outcome (World host) A) → Ends o R D E → Ends o (λ _. Unit {0}) D E
      split (done a v) h = (tt, h.1)
      split (raised e v) h = h

  pub if_rule :
      {A : Type 0} {C D E : View → Type 0} {R : A → Type 0} (b : Bool) (m n : Managed host A)
      → Triple C m R D E
      → Triple C n R D E
      → Triple C (if b then m else n) R D E
  if_rule true m n tm tn = tm
  if_rule false m n tm tn = tn

  pub return_rule :
      {A : Type 0} {E : View → Type 0} (C : View → Type 0) (R : A → Type 0) (a : A)
      → R a
      → Triple C (pure a) R C E
  return_rule C R a r = record { run = λ w h. (r, h) }

  module _ {C E : View → Type 0} (sub : (c : View) → C c → E c) where
    pub weaken : (w : World host) → Holds C w → Holds E w
    weaken w h s e = sub (view s) (h s e)

    pub load_rule : Triple C (load host) (λ s. C (view s)) C E
    unfolding load
    load_rule = record { run = λ w h. split w.state_file w h (h) (weaken w h) }
      where
        split :
            (o : Option PipelineState) (w : World host)
            → Holds C w
            → ((s : PipelineState) → o ≡ some s → C (view s))
            → Holds E w
            → Ends
                (elim o [ none ↦ raised state_error w | some s ↦ done s w ])
                (λ s. C (view s))
                C
                E
        split none w h g k = k
        split (some s) w h g k = (g s refl, h)

    pub pure_rule : {A : Type 0} (a : A) → Triple C (pure a) (λ b. b ≡ a) C E
    pure_rule a = record { run = λ w h. (refl, h) }

    pub raise_rule :
        {A : Type 0} (R : A → Type 0) (D : View → Type 0) (e : Error) → Triple C (raise e) R D E
    raise_rule R D e = record { run = λ w h. weaken w h }

    pub raise_if_rule : (b : Bool) (e : Error) → Triple C (raise_if host b e) (λ _. b ≡ false) C E
    raise_if_rule true e = record { run = λ w h. weaken w h }
    raise_if_rule false e = record { run = λ w h. (refl, h) }

    pub require_rule :
        {A : Type 0} (e : Error) (o : Option A) → Triple C (require host e o) (λ a. o ≡ some a) C E
    require_rule e none = record { run = λ w h. weaken w h }
    require_rule e (some a) = record { run = λ w h. (refl, h) }

    pub frame_rule :
        {A : Type 0} (m : Managed host A)
        → ((w : World host) → (after (m w)).state_file ≡ w.state_file)
        → Triple C m (λ _. Unit) C E
    frame_rule {A} m same = record { run = λ w h. split (m w) w h (same w) }
      where
        split :
            (o : Outcome (World host) A) (w : World host)
            → Holds C w
            → (after o).state_file ≡ w.state_file
            → Ends o (λ _. Unit) C E
        split (done a v) w h e = (tt, λ s k. h s (sym e ∙ k))
        split (raised x v) w h e = λ s k. sub (view s) (h s (sym e ∙ k))

    pub write_rule :
        (D : View → Type 0) (s : PipelineState)
        → D (view s)
        → Triple C (write_state host s) (λ _. Unit) D E
    unfolding write_state
    write_rule D s d = record { run = λ w h. split (host.writable state_path) w h }
      where
        split :
            (b : Bool) (w : World host)
            → Holds C w
            → Ends
                (if b
                  then done tt (record w { state_file = some s })
                  else raised atomic_write_error w)
                (λ _. Unit)
                D
                E
        split true w h = (tt, λ t k. subst (λ u. D (view u)) (some-injective s t k) d)
        split false w h = weaken w h

    pub strengthen :
        {A : Type 0} {R : A → Type 0} {D F : View → Type 0} (m : Managed host A)
        → Triple E m R D F
        → Triple C m R D F
    strengthen m t = record { run = λ w h. t.run w (weaken w h) }
