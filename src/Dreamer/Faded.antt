-- ===== src/Dreamer/Faded.antt =====
-- dreamer/decay.py: the lessons after the loop, beside those before it.
use forge_os.Base.{
  ℕ, ◌+◌, String, Bool, true, false, not, ◌&&◌, ◌||◌, List, [], ◌∷◌, ◌++◌, ◌≡◌, refl, arith,
  if◌then◌else◌,
}
use forge_os.Host.{Host}
use forge_os.Memory.Lessons.{LessonOf, LessonFile, missing, broken, document, approved, status_eq}
use forge_os.Dreamer.{
  Tried, got, failed, Report, no_report, count_if, DecaySettings, is_skipped, dormant_if, decay_by,
  days_since, decay_examined, decay_lesson, decay_rest, decay_lessons, decayed_confidence,
}

abbrev pub IfValue : {A : Type 0} → Tried A → (A → Type 0) → Type 0
IfValue (failed e) Q = Unit
IfValue (got a) Q = Q a

module _ (host : Host) where
  -- the lessons that fell asleep between the two lists
  abbrev pub fell_asleep : List (LessonOf host) → List (LessonOf host) → List String
  fell_asleep [] ms = []
  fell_asleep (l ∷ ls) [] = []
  fell_asleep (l ∷ ls) (m ∷ ms) =
      (if m.dormant && not l.dormant then l.id ∷ [] else []) ++ fell_asleep ls ms

  abbrev pub count_awake : List (LessonOf host) → ℕ
  count_awake [] = 0
  count_awake (l ∷ ls) = count_if (status_eq l.status approved && not l.dormant) + count_awake ls

  abbrev pub lessons_in : LessonFile host.Num → List (LessonOf host)
  lessons_in missing = []
  lessons_in (broken message) = []
  lessons_in (document lessons) = lessons

  module _ (settings : DecaySettings host) where
    -- `m` is `l` but for its confidence and dormancy, all of `l` where `l` is not approved or asleep
    -- already; and an approved lesson that is awake after it is not below the threshold
    abbrev pub IsFaded : LessonOf host → LessonOf host → Type 0
    IsFaded l m =
        (record m { confidence = l.confidence; dormant = l.dormant; dormant_at = l.dormant_at } ≡ l)
        × ((status_eq l.status approved && not l.dormant ≡ false) → m ≡ l)
        × ((status_eq m.status approved && not m.dormant ≡ true)
            → host.num_ltb m.confidence settings.dormancy_threshold ≡ false)

    abbrev pub AreFaded : List (LessonOf host) → List (LessonOf host) → Type 0
    AreFaded [] [] = Unit
    AreFaded (l ∷ ls) (m ∷ ms) = IsFaded l m × AreFaded ls ms
    AreFaded _ _ = ⊥

    abbrev pub IsReport : List (LessonOf host) → List (LessonOf host) × Report → Type 0
    IsReport ls (ms, r) =
        AreFaded ls ms × (r.examined ≡ count_awake ls) × (r.dormant_ids ≡ fell_asleep ls ms)

    abbrev IsStep : LessonOf host → LessonOf host × Report → Type 0
    IsStep l (m, r) =
        IsFaded l m
        × (r.examined ≡ count_if (status_eq l.status approved && not l.dormant))
        × (r.dormant_ids ≡ (if m.dormant && not l.dormant then l.id ∷ [] else []))

    decay_by-IsStep :
        (timestamp : String) (l : LessonOf host) (days : host.Num)
        → status_eq l.status approved ≡ true
        → l.dormant ≡ false
        → IsStep l (decay_by host settings timestamp l days)
    unfolding decay_by
    decay_by-IsStep timestamp l days a d =
        go (host.num_ltb c settings.dormancy_threshold) (host.num_ltb settings.dormancy_days days)
          refl
      where
        c : host.Num
        c = decayed_confidence host l.confidence days settings.half_life_days

        skipped : status_eq l.status approved && not l.dormant ≡ true
        skipped = rw (a, d) refl

        go :
            (t u : Bool)
            → host.num_ltb c settings.dormancy_threshold ≡ t
            → IsStep l (
              dormant_if host (t || u) timestamp (record l { confidence = c }),
              record {
                examined = 1;
                decayed = count_if (host.num_ltb c l.confidence);
                dormant_ids = if t || u then l.id ∷ [] else [];
              },
            )
        go true u e = (
          (refl, λ k. absurd (ground (arith, skipped, k)), λ k. absurd (ground (arith, a, k))),
          rw skipped refl,
          rw d refl,
        )
        go false true e = (
          (refl, λ k. absurd (ground (arith, skipped, k)), λ k. absurd (ground (arith, a, k))),
          rw skipped refl,
          rw d refl,
        )
        go false false e =
            ((refl, λ k. absurd (ground (arith, skipped, k)), λ k. e), rw skipped refl, rw d refl)

    decay_lesson-IsStep :
        (timestamp : String) (reference_now : host.Moment) (l : LessonOf host)
        → IfValue (decay_lesson host settings timestamp reference_now l) (IsStep l)
    unfolding decay_lesson is_skipped
    decay_lesson-IsStep timestamp reference_now l =
        by_test (status_eq l.status approved) l.dormant refl refl
      where
        kept : status_eq l.status approved && not l.dormant ≡ false → IsStep l (l, no_report)
        kept e = ((refl, λ k. refl, λ k. absurd (ground (arith, e, k))), rw e refl, awake l.dormant)
          where
            awake : (b : Bool) → [] ≡ (if b && not b then l.id ∷ [] else [])
            awake true = refl
            awake false = refl

        examined :
            (days : Tried host.Num)
            → status_eq l.status approved ≡ true
            → l.dormant ≡ false
            → IfValue (decay_examined host settings timestamp l days) (IsStep l)
        examined (failed e) a d = tt
        examined (got days) a d = decay_by-IsStep timestamp l days a d

        by_test :
            (s d : Bool)
            → status_eq l.status approved ≡ s
            → l.dormant ≡ d
            → IfValue
                (if not s || d
                  then got (l, no_report)
                  else decay_examined host settings timestamp l (days_since host reference_now l))
                (IsStep l)
        by_test false d e f = kept (rw e refl)
        by_test true true e f = kept (ground (arith, e, f))
        by_test true false e f = examined (days_since host reference_now l) e f

    decay_rest-IsReport :
        (l : LessonOf host) (ls : List (LessonOf host)) (changed : LessonOf host × Report)
        (rest : Tried (List (LessonOf host) × Report))
        → IsStep l changed
        → IfValue rest (IsReport ls)
        → IfValue (decay_rest host changed rest) (IsReport (l ∷ ls))
    decay_rest-IsReport l ls (m, r) (failed e) h k = tt
    decay_rest-IsReport l ls (m, r) (got (ms, s)) (f, e, d) (g, e', d') =
        ((f, g), omega (arith, e, e'), rw (d, d') refl)

    pub decay_lessons-IsReport :
        (timestamp : String) (reference_now : host.Moment) (ls : List (LessonOf host))
        → IfValue (decay_lessons host settings timestamp reference_now ls) (IsReport ls)
    unfolding decay_lessons
    decay_lessons-IsReport timestamp reference_now [] = (tt, refl, refl)
    decay_lessons-IsReport timestamp reference_now (l ∷ ls) =
        go (decay_lesson host settings timestamp reference_now l)
          (decay_lesson-IsStep timestamp reference_now l)
          (decay_lessons-IsReport timestamp reference_now ls)
      where
        rest : Tried (List (LessonOf host) × Report)
        rest = decay_lessons host settings timestamp reference_now ls

        go :
            (o : Tried (LessonOf host × Report))
            → IfValue o (IsStep l)
            → IfValue rest (IsReport ls)
            → IfValue
                (elim o [ failed e ↦ failed e | got changed ↦ decay_rest host changed rest ])
                (IsReport (l ∷ ls))
        go (failed e) h k = tt
        go (got changed) h k = decay_rest-IsReport l ls changed rest h k
