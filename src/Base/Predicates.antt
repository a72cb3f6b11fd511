-- ===== src/Base/Predicates.antt =====
-- Predicates on lists by recursion, which the tactics read as tuples.
use mathlib.Core.Path.{◌≡◌, refl}
use mathlib.Core.Bool.{Bool, true, false}
use mathlib.Core.List.{List, [], ◌∷◌, ◌++◌, map}
use mathlib.Core.Logic.{◌⊎◌, inl, inr}
use native.Mathlib.Omega.{arith}
use forge_os.Base.Tests.{Bool-cases}
use forge_os.Base.Lists.{filter, any, find?, contains}
use Prim.Native.String.{String}
use text.Mathlib.TextPositions.{eq_refl}
use mathlib.Core.Option.{some}

abbrev pub All {ℓ κ} : {A : Type ℓ} → (A → Type κ) → List A → Type κ
All P [] = Unit
All P (x ∷ xs) = P x × All P xs

-- `a` stands in the list, at a place that the proof tells.
abbrev pub Has : {A : Type 0} → A → List A → Type 0
Has a [] = ⊥
Has a (x ∷ xs) = (x ≡ a) ⊎ Has a xs

module _ {A : Type 0} (P : A → Type 0) where
  pub All-append : (xs ys : List A) → All P xs → All P ys → All P (xs ++ ys)
  All-append [] ys hx hy = hy
  All-append (x ∷ xs) ys hx hy = (hx.0, All-append xs ys hx.1 hy)

  pub All-filter : (p : A → Bool) (xs : List A) → All P xs → All P (filter p xs)
  All-filter p [] h = tt
  All-filter p (x ∷ xs) h = ground (arith, All-filter p xs h.1)

  pub All-mono : (Q : A → Type 0) → ((a : A) → P a → Q a) → (xs : List A) → All P xs → All Q xs
  All-mono Q f [] h = tt
  All-mono Q f (x ∷ xs) h = (f x h.0, All-mono Q f xs h.1)

  pub All-map : {B : Type 0} (f : B → A) → ((b : B) → P (f b)) → (xs : List B) → All P (map f xs)
  All-map f h [] = tt
  All-map f h (x ∷ xs) = (h x, All-map f h xs)

  pub All-has : (a : A) (xs : List A) → All P xs → Has a xs → P a
  All-has a [] h m = absurd m
  All-has a (x ∷ xs) h (inl e) = rw e at h.0
  All-has a (x ∷ xs) h (inr m) = All-has a xs h.1 m

module _ {A : Type 0} where
  pub All-of_Has : (P : A → Type 0) (xs : List A) → ((a : A) → Has a xs → P a) → All P xs
  All-of_Has P [] f = tt
  All-of_Has P (x ∷ xs) f = (f x (inl refl), All-of_Has P xs (λ a m. f a (inr m)))

  pub Has-append : (a : A) (xs ys : List A) → Has a xs ⊎ Has a ys → Has a (xs ++ ys)
  Has-append a [] ys (inl m) = absurd m
  Has-append a [] ys (inr m) = m
  Has-append a (x ∷ xs) ys (inl (inl e)) = inl e
  Has-append a (x ∷ xs) ys (inl (inr m)) = inr (Has-append a xs ys (inl m))
  Has-append a (x ∷ xs) ys (inr m) = inr (Has-append a xs ys (inr m))

  pub Has-filter :
      (a : A) (p : A → Bool) (xs : List A) → Has a xs → p a ≡ true → Has a (filter p xs)
  Has-filter a p [] m h = absurd m
  Has-filter a p (x ∷ xs) (inl e) h = rw (ap_test p e h) (inl e)
    where
      ap_test : (q : A → Bool) → x ≡ a → q a ≡ true → q x ≡ true
      ap_test q e' h' = rw e' h'
  Has-filter a p (x ∷ xs) (inr m) h = let ih = Has-filter a p xs m h in ground arith

  pub any-Has : (p : A → Bool) (a : A) (xs : List A) → Has a xs → p a ≡ true → any p xs ≡ true
  any-Has p a [] m h = absurd m
  any-Has p a (x ∷ xs) (inl e) h = ground arith
  any-Has p a (x ∷ xs) (inr m) h = ground (arith, any-Has p a xs m h)

  -- an element that `any` found
  pub Has-of_any :
      (p : A → Bool) (xs : List A) → any p xs ≡ true → (a : A) × Has a xs × (p a ≡ true)
  Has-of_any p [] h = absurd (ground arith)
  Has-of_any p (x ∷ xs) h = elim (pick (p x) refl h) [
    | inl e ↦ (x, inl refl, e)
    | inr r ↦ let (a, m, e) = Has-of_any p xs r in (a, inr m, e)
  ]
    where
      pick : (b : Bool) → p x ≡ b → any p (x ∷ xs) ≡ true → (p x ≡ true) ⊎ (any p xs ≡ true)
      pick true e _ = inl e
      pick false e g = inr (ground arith)

  pub find?-some :
      (p : A → Bool) (xs : List A) (a : A) → find? p xs ≡ some a → Has a xs × (p a ≡ true)
  find?-some p [] a h = absurd (ground arith)
  find?-some p (x ∷ xs) a h = elim (Bool-cases (p x)) [
    | inl e ↦ (inl (ground arith), ground arith)
    | inr e ↦ let (m, q) = find?-some p xs a (ground arith) in (inr m, q)
  ]

  -- the last element, or one before it
  pub Has-snoc : (a x : A) (xs : List A) → Has a (xs ++ x ∷ []) → Has a xs ⊎ (x ≡ a)
  Has-snoc a x [] (inl e) = inr e
  Has-snoc a x [] (inr m) = absurd m
  Has-snoc a x (y ∷ ys) (inl e) = inl (inl e)
  Has-snoc a x (y ∷ ys) (inr m) = elim (Has-snoc a x ys m) [ inl k ↦ inl (inr k) | inr e ↦ inr e ]

pub contains-of_Has : (xs : List String) (x : String) → Has x xs → contains xs x ≡ true
contains-of_Has [] x m = absurd m
contains-of_Has (y ∷ xs) x (inl e) = rw (e, eq_refl x) refl
contains-of_Has (y ∷ xs) x (inr m) = ground (arith, contains-of_Has xs x m)
