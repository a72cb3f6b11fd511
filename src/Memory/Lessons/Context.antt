-- ===== src/Memory/Lessons/Context.antt =====
-- The lessons that go into a stage's context.
use mathlib.Core.List.Perm
use mathlib.Core.List.{Perm}
use mathlib.Core.Path.{subst}
use forge_os.Base.{
  ℕ, String, Bool, true, false, Option, List, [], ◌∷◌, ◌≡◌, refl, arith, filter, take,
  if◌then◌else◌, none, some, not, ◌&&◌, ◌||◌, Bool-cases, inl, inr, is_none, opt_eq, eq_iff, ap,
}
use forge_os.Base.Sort.{sorted, insert, sorted-perm}
use forge_os.Base.Outcome.{done}
use forge_os.Host.{Host}
use forge_os.Memory.Lessons.{
  document, LessonOf, approved, status_eq, created_leb, context_leb, is_usable, stage_fits, list,
  load, load_file, approved_for_context,
}

module _ {A : Type 0} (p : A → Bool) where
  filter-cons-Perm :
      (x : A) (xs ys : List A)
      → Perm (filter p xs) (filter p ys)
      → Perm (filter p (x ∷ xs)) (filter p (x ∷ ys))
  filter-cons-Perm x xs ys h = elim (Bool-cases (p x)) [
    | inl e ↦ rw e (Perm.cons x h)
    | inr e ↦ rw e h
  ]

  filter-swap-Perm : (x y : A) (xs : List A) → Perm (filter p (y ∷ x ∷ xs)) (filter p (x ∷ y ∷ xs))
  filter-swap-Perm x y xs = go (p x) (p y)
    where
      go :
          (b c : Bool)
          → Perm
              (if c
                then y ∷ (if b then x ∷ filter p xs else filter p xs)
                else if b
                then x ∷ filter p xs
                else filter p xs)
              (if b
                then x ∷ (if c then y ∷ filter p xs else filter p xs)
                else if c
                then y ∷ filter p xs
                else filter p xs)
      go true true = Perm.swap x y (filter p xs)
      go true false = Perm.refl _
      go false true = Perm.refl _
      go false false = Perm.refl _

  filter-insert-Perm :
      (le : A → A → Bool) (x : A) (xs : List A)
      → Perm (filter p (insert le x xs)) (filter p (x ∷ xs))
  unfolding insert
  filter-insert-Perm le x [] = Perm.refl _
  filter-insert-Perm le x (y ∷ ys) = elim (Bool-cases (le x y)) [
    | inl e ↦ rw e (Perm.refl _)
    | inr e ↦ rw e (
        Perm.trans (filter-cons-Perm y (insert le x ys) (x ∷ ys) (filter-insert-Perm le x ys))
          (filter-swap-Perm x y ys))
  ]

  filter-sorted-Perm :
      (le : A → A → Bool) (xs : List A) → Perm (filter p (sorted le xs)) (filter p xs)
  unfolding sorted
  filter-sorted-Perm le [] = Perm.refl []
  filter-sorted-Perm le (x ∷ xs) =
      Perm.trans (filter-insert-Perm le x (sorted le xs))
        (filter-cons-Perm x (sorted le xs) xs (filter-sorted-Perm le xs))

  filter-both :
      (q r : A → Bool)
      → ((x : A) → r x ≡ q x && p x)
      → (xs : List A) → filter p (filter q xs) ≡ filter r xs
  filter-both q r same [] = refl
  filter-both q r same (x ∷ xs) = ground (arith, same x, filter-both q r same xs)

-- An approved lesson that is not dormant, sure enough, and of the stage or of no stage, if a stage is
-- given.
abbrev pub is_eligible : (host : Host) → Option String → host.Num → LessonOf host → Bool
is_eligible host stage_id min_confidence l =
    status_eq l.status approved
    && (not l.dormant
        && (host.num_leb min_confidence l.confidence
            && (elim l.stage_id [ none ↦ true | some s ↦ is_none stage_id || opt_eq stage_id s ])))

eligible-usable :
    (host : Host) (stage_id : Option String) (min_confidence : host.Num) (l : LessonOf host)
    → is_eligible host stage_id min_confidence l
      ≡ status_eq l.status approved && is_usable host stage_id min_confidence l
unfolding is_usable
eligible-usable host stage_id min_confidence l =
    ap
      (λ b.
        status_eq l.status approved
        && (not l.dormant && (host.num_leb min_confidence l.confidence && b)))
      (fits l.stage_id stage_id)
  where
    fits :
        (o p : Option String)
        → (elim o as (λ _. Bool) [ none ↦ true | some s ↦ is_none p || opt_eq p s ])
          ≡ stage_fits host o p
    fits none p = refl
    fits (some s) none = refl
    fits (some s) (some t) = ground (arith, eq_iff s t, eq_iff t s)

-- On a lesson document `approved_for_context` returns and changes nothing. It gives the first
-- `limit` of the lessons, in some order, that are approved, not dormant, sure enough, and of the
-- stage or of no stage, if a stage is given; no lesson is given more often than the document has it.
pub context_lessons_are_approved :
    (host : Host) (stage_id : Option String) (min_confidence : host.Num) (limit : ℕ)
    (lessons : List (LessonOf host))
    → (ordered : List (LessonOf host)) × (approved_for_context host stage_id min_confidence limit
          (document lessons)
        ≡ done (take limit ordered) (document lessons))
      × Perm ordered (filter (is_eligible host stage_id min_confidence) lessons)
unfolding approved_for_context list load load_file
context_lessons_are_approved host stage_id min_confidence limit lessons = (
  sorted (context_leb host) (filter usable (sorted (created_leb host) approved_ones)),
  refl,
  Perm.trans
      (sorted-perm (context_leb host) (filter usable (sorted (created_leb host) approved_ones)))
      (subst (Perm (filter usable (sorted (created_leb host) approved_ones)))
        (filter-both usable (λ l. status_eq l.status approved)
          (is_eligible host stage_id min_confidence) (eligible-usable host stage_id min_confidence)
          lessons)
        (filter-sorted-Perm usable (created_leb host) approved_ones)),
)
  where
    usable : LessonOf host → Bool
    usable = is_usable host stage_id min_confidence

    approved_ones : List (LessonOf host)
    approved_ones = filter (λ l. status_eq l.status approved) lessons
