-- ===== src/Dreamer.antt =====
-- dreamer/decay.py and dreamer/timeutil.py: the decay of confidence and the dormancy of lessons.
pub mod Faded
pub mod Dormancy
pub mod Returning
use forge_os.Base.{
  ℕ, ◌+◌, String, Bool, true, false, not, ◌&&◌, ◌||◌, Option, none, some, List, [], ◌∷◌, ◌++◌, ◌<>◌,
  if◌then◌else◌, ◌==◌, or_some,
}
use forge_os.Base.Outcome.{Action, Error, done, raise, pure, ◌>>=◌, ◌>>◌, value_error, type_error}
use forge_os.Host.{Host, Attempt, value, error}
use forge_os.Memory.Lessons.{Lesson, LessonOf, Store, approved, status_eq, load, save}

-- What an expression gives, or the exception that it raises.
pub data Tried (A : Type 0) : Type 0 where
  got : A → Tried A
  failed : Error → Tried A

abbrev pub tried : {A : Type 0} → (String → Error) → Attempt A → Tried A
tried raises (value a) = got a
tried raises (error message) = failed (raises message)

-- what `apply_decay` reports; `newly_dormant` is the length of `dormant_ids`
pub record Report : Type 0 where
  pub examined : ℕ
  pub decayed : ℕ
  pub dormant_ids : List String

abbrev pub no_report : Report
no_report = record { examined = 0; decayed = 0; dormant_ids = [] }

abbrev pub join_reports : Report → Report → Report
join_reports r s = record {
  examined = r.examined + s.examined;
  decayed = r.decayed + s.decayed;
  dormant_ids = r.dormant_ids ++ s.dormant_ids;
}

abbrev pub count_if : Bool → ℕ
count_if b = if b then 1 else 0

-- `a or b` for an optional text `a`
abbrev pub or_text : Option String → String → String
or_text none later = later
or_text (some s) later = if s == "" then later else s

-- `lesson.last_used_at or lesson.approved_at or lesson.updated_at`
abbrev pub last_use : Option String → Option String → String → String
last_use used approval updated = or_text used (or_text approval updated)

module _ (host : Host) where
  -- `max(a, b)` of floating-point numbers
  abbrev num_max : host.Num → host.Num → host.Num
  num_max a b = if host.num_ltb a b then b else a

  unfoldable pub parse_timestamp : String → Tried host.Moment
  parse_timestamp text = tried value_error (host.from_iso (host.replace text "Z" "+00:00"))

  -- after the test that the half-life is positive
  unfoldable pub decayed_confidence : host.Num → host.Num → host.Num → host.Num
  decayed_confidence confidence days_since_use half_life_days =
      num_max
        (host.num_mul confidence (host.half_power (host.num_div days_since_use half_life_days)))
        (host.literal "0.0")

  pub record DecaySettings : Type 0 where
    pub half_life_days : host.Num
    pub dormancy_threshold : host.Num
    pub dormancy_days : host.Num

  unfoldable pub is_skipped : LessonOf host → Bool
  is_skipped l = not (status_eq l.status approved) || l.dormant

  abbrev dormant_if : Bool → String → LessonOf host → LessonOf host
  dormant_if false timestamp l = l
  dormant_if true timestamp l = record l { dormant = true; dormant_at = some timestamp }

  -- the body of the loop from `new_confidence` on
  unfoldable pub decay_by :
      DecaySettings → String → LessonOf host → host.Num → LessonOf host × Report
  unfolding decayed_confidence
  decay_by settings timestamp l days_since_use =
      let new_confidence = decayed_confidence l.confidence days_since_use settings.half_life_days in
      let is_dormant =
        host.num_ltb new_confidence settings.dormancy_threshold
        || host.num_ltb settings.dormancy_days days_since_use in
      (
        dormant_if is_dormant timestamp (record l { confidence = new_confidence }),
        record {
          examined = 1;
          decayed = count_if (host.num_ltb new_confidence l.confidence);
          dormant_ids = if is_dormant then l.id ∷ [] else [];
        },
      )

  abbrev days_between : host.Moment → host.Moment → Tried host.Num
  days_between reference_now used =
      elim (tried type_error (host.total_seconds reference_now used)) [
        | failed e ↦ failed e
        | got elapsed ↦
            got (num_max (host.num_div elapsed (host.literal "86400.0")) (host.literal "0.0"))
      ]

  unfoldable pub days_since : host.Moment → LessonOf host → Tried host.Num
  unfolding parse_timestamp
  days_since reference_now l =
      elim (parse_timestamp (last_use l.last_used_at l.approved_at l.updated_at)) [
        | failed e ↦ failed e
        | got used ↦ days_between reference_now used
      ]

  abbrev decay_examined :
      DecaySettings → String → LessonOf host → Tried host.Num → Tried (LessonOf host × Report)
  decay_examined settings timestamp l (failed e) = failed e
  decay_examined settings timestamp l (got days) = got (decay_by settings timestamp l days)

  unfoldable pub decay_lesson :
      DecaySettings → String → host.Moment → LessonOf host → Tried (LessonOf host × Report)
  unfolding is_skipped decay_by days_since
  decay_lesson settings timestamp reference_now l =
      if is_skipped l
      then got (l, no_report)
      else decay_examined settings timestamp l (days_since reference_now l)

  abbrev decay_rest :
      LessonOf host × Report
      → Tried (List (LessonOf host) × Report)
      → Tried (List (LessonOf host) × Report)
  decay_rest (m, r) (failed e) = failed e
  decay_rest (m, r) (got (ms, s)) = got (m ∷ ms, join_reports r s)

  -- the loop over the document
  unfoldable pub decay_lessons :
      DecaySettings
      → String
      → host.Moment
      → List (LessonOf host)
      → Tried (List (LessonOf host) × Report)
  unfolding decay_lesson
  decay_lessons settings timestamp reference_now [] = got ([], no_report)
  decay_lessons settings timestamp reference_now (l ∷ ls) =
      let rest = decay_lessons settings timestamp reference_now ls in
      elim (decay_lesson settings timestamp reference_now l) [
        | failed e ↦ failed e
        | got changed ↦ decay_rest changed rest
      ]

  abbrev raise_if : Bool → String → Store host (Unit {0})
  raise_if b message = if b then raise (value_error message) else pure tt

  abbrev checked : {A : Type 0} → Tried A → Store host A
  checked (failed e) = raise e
  checked (got a) = pure a

  unfoldable pub store_decayed : List (LessonOf host) × Report → Store host Report
  unfolding save
  store_decayed (lessons, report) = do save host lessons; pure report

  unfoldable pub check_half_life : DecaySettings → Store host (Unit {0})
  check_half_life settings =
      raise_if (host.num_leb settings.half_life_days (host.literal "0"))
        ("half_life_days must be positive, got " <> host.show_num settings.half_life_days)

  unfoldable pub check_dormancy_days : DecaySettings → Store host (Unit {0})
  check_dormancy_days settings =
      raise_if (host.num_leb settings.dormancy_days (host.literal "0"))
        ("dormancy_days must be positive, got " <> host.show_num settings.dormancy_days)

  unfoldable pub check_threshold : DecaySettings → Store host (Unit {0})
  check_threshold settings =
      raise_if
        (not (
          host.num_leb (host.literal "0.0") settings.dormancy_threshold
          && host.num_leb settings.dormancy_threshold (host.literal "1.0")))
        ("dormancy_threshold must be within [0, 1], got "
          <> host.show_num settings.dormancy_threshold)

  -- `apply_decay` after the tests of its arguments
  unfoldable pub decay_store : DecaySettings → String → Store host Report
  unfolding parse_timestamp load decay_lessons store_decayed
  decay_store settings timestamp = do
    reference_now ← checked (parse_timestamp timestamp)
    lessons ← load host
    result ← checked (decay_lessons settings timestamp reference_now lessons)
    store_decayed result

  -- `timestamp` is the argument `now`, or the clock's reading
  unfoldable pub apply_decay : DecaySettings → String → Store host Report
  unfolding check_half_life check_dormancy_days check_threshold decay_store
  apply_decay settings timestamp = do
    check_half_life settings
    check_dormancy_days settings
    check_threshold settings
    decay_store settings timestamp
