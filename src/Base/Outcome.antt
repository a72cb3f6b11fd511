-- ===== src/Base/Outcome.antt =====
-- Methods that change the project's files and may raise. What was written before a raise stays
-- written, so the world comes back beside the error too.
use mathlib.Core.Path.{◌≡◌, subst}
use Prim.Native.String.{String}
use mathlib.Core.Bool.{Bool, true, false}

-- An exception, by its class, with the message.
pub data Error : Type 0 where
  state_error config_error gate_load_error atomic_write_error : Error
  validation_error key_error daemon_error : Error
  transition_error runtime_error permission_error timeout_error lesson_error os_error artifact_error
        context_error :
      String → Error
  channel_already_bound_error channel_permission_error unbound_sender_error channel_rate_limit_error
        channel_duplicate_error value_error type_error :
      String → Error

pub data Outcome (W A : Type 0) : Type 0 where
  done : A → W → Outcome W A
  raised : Error → W → Outcome W A

abbrev pub Action : Type 0 → Type 0 → Type 0
Action W A = W → Outcome W A

module _ {W A : Type 0} where
  -- the files after the call, whether it returned or raised
  abbrev pub after : Outcome W A → W
  after (done a w) = w
  after (raised e w) = w

  abbrev pub returned : Outcome W A → Bool
  returned (done a w) = true
  returned (raised e w) = false

  abbrev pub pure : A → Action W A
  pure a w = done a w

  abbrev pub raise : Error → Action W A
  raise e w = raised e w

module _ {W A B : Type 0} where
  infixl 5 ◌>>=◌ ◌>>◌
  abbrev pub ◌>>=◌ : Action W A → (A → Action W B) → Action W B
  ◌>>=◌ m f w = elim (m w) [ done a v ↦ f a v | raised e v ↦ raised e v ]

  abbrev pub ◌>>◌ : Action W A → Action W B → Action W B
  m >> k = m >>= λ _. k

-- what a call that returned leaves
abbrev pub IfDone : {W A : Type 0} → Outcome W A → (A → W → Type 0) → Type 0
IfDone (done a w) Q = Q a w
IfDone (raised e w) Q = Unit

-- From a world with `P`, the action, if it returns `a`, leaves a world with `Q a`.
pub record Yields {W A : Type 0} (P : W → Type 0) (m : Action W A) (Q : A → W → Type 0)
    : Type 0 where
  pub run : (w : W) → P w → IfDone (m w) Q

module _ {W A B : Type 0} {P : W → Type 0} {R : A → W → Type 0} {Q : B → W → Type 0} where
  pub yields_bind :
      (m : Action W A) (f : A → Action W B)
      → Yields P m R
      → ((a : A) → Yields (R a) (f a) Q)
      → Yields P (m >>= f) Q
  yields_bind m f ym yf = record { run = λ w p. go (m w) (ym.run w p) }
    where
      go :
          (o : Outcome W A)
          → IfDone o R
          → IfDone {W = W} {A = B} (elim o [ done a v ↦ f a v | raised e v ↦ raised e v ]) Q
      go (done a v) r = (yf a).run v r
      go (raised e v) r = tt

module _ {W A : Type 0} where
  -- nothing is said of the world
  pub yields_any : (P : W → Type 0) (m : Action W A) → Yields P m (λ _ _. Unit {0})
  yields_any P m = record { run = λ w p. go (m w) }
    where
      go : (o : Outcome W A) → IfDone o (λ _ _. Unit {0})
      go (done a v) = tt
      go (raised e v) = tt

  -- a fact that does not speak of the world
  pub yields_fact :
      {Q : A → W → Type 0} (P : Type 0) (m : Action W A)
      → (P → Yields (λ _. Unit {0}) m Q)
      → Yields (λ _. P) m Q
  yields_fact P m f = record { run = λ w p. (f p).run w tt }

  pub yields_done :
      (Q : A → W → Type 0) (o : Outcome W A) (a : A) (v : W) → IfDone o Q → o ≡ done a v → Q a v
  yields_done Q o a v h e = subst (λ x. IfDone x Q) e h
