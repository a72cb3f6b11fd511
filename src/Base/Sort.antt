-- ===== src/Base/Sort.antt =====
-- Python's `sorted(xs, key=...)`: a stable sort by a total order on the keys.
use mathlib.Core.Path.{◌≡◌, refl, ap, ◌∙◌}
use mathlib.Core.Bool.{Bool, true, false, ◌||◌}
use forge_os.Base.Lists.{any, filter}
use mathlib.Core.List.{List, [], ◌∷◌, Perm}
use mathlib.Core.List.Perm
use mathlib.Core.Logic.{◌⊎◌, inl, inr}
use native.Mathlib.Omega.{arith}
use forge_os.Base.Tests.{if◌then◌else◌, Bool-cases}
use forge_os.Base.Predicates.{All, All-mono, Has}

pub record Order (A : Type 0) : Type 0 where
  pub leb : A → A → Bool
  pub total : (a b : A) → (leb a b ≡ true) ⊎ (leb b a ≡ true)
  pub trans : (a b c : A) → leb a b ≡ true → leb b c ≡ true → leb a c ≡ true

module _ {A : Type 0} where
  unfoldable pub insert : (A → A → Bool) → A → List A → List A
  insert le x [] = x ∷ []
  insert le x (y ∷ ys) = if le x y then x ∷ y ∷ ys else y ∷ insert le x ys

  -- An element goes before those that are equal to it and came later.
  unfoldable pub sorted : (A → A → Bool) → List A → List A
  unfolding insert
  sorted le [] = []
  sorted le (x ∷ xs) = insert le x (sorted le xs)

  abbrev pub IsSorted : (A → A → Bool) → List A → Type 0
  IsSorted le [] = Unit
  IsSorted le (x ∷ xs) = All (λ y. le x y ≡ true) xs × IsSorted le xs

  pub insert-perm : (le : A → A → Bool) (x : A) (xs : List A) → Perm (insert le x xs) (x ∷ xs)
  unfolding insert
  insert-perm le x [] = Perm.refl (x ∷ [])
  insert-perm le x (y ∷ ys) = elim (Bool-cases (le x y)) [
    | inl e ↦ rw e (Perm.refl (x ∷ y ∷ ys))
    | inr e ↦ rw e (Perm.trans (Perm.cons y (insert-perm le x ys)) (Perm.swap x y ys))
  ]

  pub sorted-perm : (le : A → A → Bool) (xs : List A) → Perm (sorted le xs) xs
  unfolding sorted
  sorted-perm le [] = Perm.refl []
  sorted-perm le (x ∷ xs) =
      Perm.trans (insert-perm le x (sorted le xs)) (Perm.cons x (sorted-perm le xs))

  any-insert :
      (q : A → Bool) (le : A → A → Bool) (x : A) (xs : List A)
      → any q (insert le x xs) ≡ (q x || any q xs)
  unfolding insert
  any-insert q le x [] = refl
  any-insert q le x (y ∷ ys) = ground (arith, any-insert q le x ys)

  pub any-sorted :
      (q : A → Bool) (le : A → A → Bool) (xs : List A) → any q (sorted le xs) ≡ any q xs
  unfolding sorted
  any-sorted q le [] = refl
  any-sorted q le (x ∷ xs) =
      any-insert q le x (sorted le xs) ∙ ap (λ b. q x || b) (any-sorted q le xs)

  module _ (P : A → Type 0) (le : A → A → Bool) where
    pub All-insert : (x : A) (xs : List A) → P x → All P xs → All P (insert le x xs)
    unfolding insert
    All-insert x [] p h = (p, tt)
    All-insert x (y ∷ ys) p h = ground (arith, All-insert x ys p h.1)

    pub All-sorted : (xs : List A) → All P xs → All P (sorted le xs)
    unfolding sorted
    All-sorted [] h = tt
    All-sorted (x ∷ xs) h = All-insert x (sorted le xs) h.0 (All-sorted xs h.1)

  module _ (le : A → A → Bool) (a : A) where
    pub Has-insert : (x : A) (xs : List A) → (x ≡ a) ⊎ Has a xs → Has a (insert le x xs)
    unfolding insert
    Has-insert x [] m = m
    Has-insert x (y ∷ ys) (inl e) = elim (Bool-cases (le x y)) [
      | inl t ↦ rw t (inl e)
      | inr t ↦ rw t (inr (Has-insert x ys (inl e)))
    ]
    Has-insert x (y ∷ ys) (inr (inl e)) = elim (Bool-cases (le x y)) [
      | inl t ↦ rw t (inr (inl e))
      | inr t ↦ rw t (inl e)
    ]
    Has-insert x (y ∷ ys) (inr (inr m)) = elim (Bool-cases (le x y)) [
      | inl t ↦ rw t (inr (inr m))
      | inr t ↦ rw t (inr (Has-insert x ys (inr m)))
    ]

    pub Has-sorted : (xs : List A) → Has a xs → Has a (sorted le xs)
    unfolding sorted
    Has-sorted [] m = m
    Has-sorted (x ∷ xs) (inl e) = Has-insert x (sorted le xs) (inl e)
    Has-sorted (x ∷ xs) (inr m) = Has-insert x (sorted le xs) (inr (Has-sorted xs m))

  module _ (o : Order A) where
    insert-IsSorted : (x : A) (xs : List A) → IsSorted o.leb xs → IsSorted o.leb (insert o.leb x xs)
    unfolding insert
    insert-IsSorted x [] h = (tt, tt)
    insert-IsSorted x (y ∷ ys) h = elim (Bool-cases (o.leb x y)) [
      | inl e ↦ rw e (
        (e, All-mono (λ z. o.leb y z ≡ true) (λ z. o.leb x z ≡ true) (λ z. o.trans x y z e) ys h.0),
        h,
      )
      | inr e ↦ rw e (
        All-insert (λ z. o.leb y z ≡ true) o.leb x ys (flip e (o.total x y)) h.0,
        insert-IsSorted x ys h.1,
      )
    ]
      where
        flip : o.leb x y ≡ false → (o.leb x y ≡ true) ⊎ (o.leb y x ≡ true) → o.leb y x ≡ true
        flip e (inl t) = absurd (ground arith)
        flip e (inr t) = t

    pub sorted-IsSorted : (xs : List A) → IsSorted o.leb (sorted o.leb xs)
    unfolding sorted
    sorted-IsSorted [] = tt
    sorted-IsSorted (x ∷ xs) = insert-IsSorted x (sorted o.leb xs) (sorted-IsSorted xs)

-- every element has `R` to each later one
abbrev pub Pairwise : {A : Type 0} → (A → A → Type 0) → List A → Type 0
Pairwise R [] = Unit
Pairwise R (x ∷ xs) = All (R x) xs × Pairwise R xs

module _ {A : Type 0} where
  pub IsSorted-Pairwise :
      (le : A → A → Bool) (R : A → A → Type 0)
      → ((a b : A) → le a b ≡ true → R a b)
      → (xs : List A) → IsSorted le xs
      → Pairwise R xs
  IsSorted-Pairwise le R f [] h = tt
  IsSorted-Pairwise le R f (x ∷ xs) h =
      (All-mono (λ y. le x y ≡ true) (R x) (f x) xs h.0, IsSorted-Pairwise le R f xs h.1)

  module _ (le : A → A → Bool) (p : A → Bool)
      (tied : (a b : A) → p a ≡ true → p b ≡ true → le a b ≡ true) where
    filter-insert : (x : A) (xs : List A) → filter p (insert le x xs) ≡ filter p (x ∷ xs)
    unfolding insert
    filter-insert x [] = refl
    filter-insert x (y ∷ ys) = elim (Bool-cases (le x y)) [
      | inl e ↦ rw e refl
      | inr e ↦ rw e (later (filter-insert x ys) e (Bool-cases (p x)) (Bool-cases (p y)))
    ]
      where
        later :
            filter p (insert le x ys) ≡ filter p (x ∷ ys)
            → le x y ≡ false
            → (p x ≡ true) ⊎ (p x ≡ false)
            → (p y ≡ true) ⊎ (p y ≡ false)
            → filter p (y ∷ insert le x ys) ≡ filter p (x ∷ y ∷ ys)
        later ih e (inl a) (inl b) = absurd (ground (arith, tied x y a b, e))
        later ih e (inl a) (inr b) = ground (arith, ih, a, b)
        later ih e (inr a) (inl b) = ground (arith, ih, a, b)
        later ih e (inr a) (inr b) = ground (arith, ih, a, b)

    -- Elements that are equal to each other keep their order.
    pub filter-sorted : (xs : List A) → filter p (sorted le xs) ≡ filter p xs
    unfolding sorted
    filter-sorted [] = refl
    filter-sorted (x ∷ xs) = ground (arith, filter-insert x (sorted le xs), filter-sorted xs)
