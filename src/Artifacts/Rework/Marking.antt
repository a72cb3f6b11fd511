-- ===== src/Artifacts/Rework/Marking.antt =====
-- What `new_ones` adds to a set, and how much of a list stays unseen.
use mathlib.Core.Path.{subst}
use forge_os.Base.{
  append_nil, append_cons, ℕ, suc, ◌+◌, ◌≤◌, ◌<◌, String, true, false, ◌||◌, List, [], ◌∷◌, ◌++◌,
  ◌≡◌, refl, sym, inl, inr, arith, contains, length, if◌then◌else◌, ◌==◌, eq_iff, All, Has,
  Has-append, Bool-cases,
}
use forge_os.Artifacts.Rework.{new_ones}

-- the number of the texts of `universe` that are not in the set yet
abbrev pub unseen : List String → List String → ℕ
unseen [] seen = 0
unseen (u ∷ us) seen = if contains seen u then unseen us seen else suc (unseen us seen)

pub contains-Has : (xs : List String) (x : String) → contains xs x ≡ true → Has x xs
contains-Has [] x h = absurd (ground arith)
contains-Has (y ∷ xs) x h = elim (Bool-cases (y == x)) [
  | inl e ↦ inl (ground (arith, eq_iff y x))
  | inr e ↦ inr (contains-Has xs x (ground arith))
]

contains-append :
    (xs : List String) (x u : String) → contains (xs ++ x ∷ []) u ≡ (contains xs u || x == u)
contains-append [] x u = ground arith
contains-append (y ∷ xs) x u = ground (arith, contains-append xs x u)

unseen-le : (us seen : List String) (x : String) → unseen us (seen ++ x ∷ []) ≤ unseen us seen
unseen-le [] seen x = omega arith
unseen-le (u ∷ us) seen x = ground (arith, unseen-le us seen x, contains-append seen x u)

pub unseen-lt :
    (us seen : List String) (x : String)
    → Has x us
    → contains seen x ≡ false
    → unseen us (seen ++ x ∷ []) < unseen us seen
unseen-lt [] seen x m h = absurd m
unseen-lt (u ∷ us) seen x (inl e) h =
    ground (arith, unseen-le us seen x, contains-append seen x u, eq_iff x u, e)
unseen-lt (u ∷ us) seen x (inr m) h =
    ground (arith, unseen-lt us seen x m h, contains-append seen x u)

-- what is added leaves as much less unseen
pub new_ones-unseen :
    (us xs seen : List String)
    → All (λ x. Has x us) xs
    → unseen us (seen ++ new_ones xs seen) + length (new_ones xs seen) ≤ unseen us seen
unfolding new_ones
new_ones-unseen us [] seen h = rw (append_nil seen) (omega arith)
new_ones-unseen us (x ∷ xs) seen h = elim (Bool-cases (contains seen x)) [
  | inl e ↦ rw e (new_ones-unseen us xs seen h.1)
  | inr e ↦
      rw (e, sym (append_cons seen x (new_ones xs (seen ++ x ∷ []))))
        (omega (arith, new_ones-unseen us xs (seen ++ x ∷ []) h.1, unseen-lt us seen x h.0 e))
]

new_ones-old :
    (x : String) (xs seen : List String)
    → contains seen x ≡ true
    → new_ones (x ∷ xs) seen ≡ new_ones xs seen
unfolding new_ones
new_ones-old x xs seen e = rw e refl

new_ones-new :
    (x : String) (xs seen : List String)
    → contains seen x ≡ false
    → new_ones (x ∷ xs) seen ≡ x ∷ new_ones xs (seen ++ x ∷ [])
unfolding new_ones
new_ones-new x xs seen e = rw e refl

-- everything that was to be added is there after it
pub new_ones-All : (xs seen : List String) → All (λ x. Has x (seen ++ new_ones xs seen)) xs
new_ones-All [] seen = tt
new_ones-All (x ∷ xs) seen = elim (Bool-cases (contains seen x)) [
  | inl e ↦
      subst (λ l. All (λ y. Has y (seen ++ l)) (x ∷ xs)) (sym (new_ones-old x xs seen e))
        (Has-append x seen (new_ones xs seen) (inl (contains-Has seen x e)), new_ones-All xs seen)
  | inr e ↦
      subst (λ l. All (λ y. Has y (seen ++ l)) (x ∷ xs)) (sym (new_ones-new x xs seen e))
        (
          Has-append x seen (x ∷ new_ones xs (seen ++ x ∷ [])) (inr (inl refl)),
          subst (λ l. All (λ y. Has y l) xs) (append_cons seen x (new_ones xs (seen ++ x ∷ [])))
              (new_ones-All xs (seen ++ x ∷ [])),
        )
]

-- and only that
pub new_ones-only :
    (P : String → Type 0) (xs seen : List String) → All P xs → All P (new_ones xs seen)
unfolding new_ones
new_ones-only P [] seen h = tt
new_ones-only P (x ∷ xs) seen h = elim (Bool-cases (contains seen x)) [
  | inl e ↦ rw e (new_ones-only P xs seen h.1)
  | inr e ↦ rw e (h.0, new_ones-only P xs (seen ++ x ∷ []) h.1)
]
