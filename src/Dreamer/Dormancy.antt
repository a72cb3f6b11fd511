-- ===== src/Dreamer/Dormancy.antt =====
-- dreamer/decay.py: what a run of the decay leaves of the lessons, and what it reports.
use forge_os.Base.{
  String, Bool, true, false, not, ◌&&◌, List, [], ◌≡◌, refl, sym, ◌<>◌, ◌⊎◌, inl, inr,
  if◌then◌else◌,
}
use mathlib.Core.Path.{subst}
use forge_os.Base.Outcome.{Outcome, Error, done, raised, os_error, pure, ◌>>=◌, ◌>>◌}
use forge_os.Host.{Host}
use forge_os.Memory.Lessons.{
  LessonOf, Store, LessonFile, missing, broken, document, left_by, load, save,
}
use forge_os.Dreamer.{
  Tried, got, failed, Report, DecaySettings, decay_lessons, parse_timestamp, raise_if, checked,
  store_decayed, apply_decay, check_half_life, check_dormancy_days, check_threshold, decay_store,
}
use forge_os.Dreamer.Faded.{IsReport, IfValue, decay_lessons-IsReport, lessons_in}

module _ (host : Host) (settings : DecaySettings host) where
  -- The write of the lessons raised, and the file is as it left it.
  abbrev IsTorn : LessonFile host.Num → Error → LessonFile host.Num → Type 0
  IsTorn file e stored =
      (e ≡ os_error "lessons.yaml")
      × (host.writable ".forge/lessons.yaml" ≡ false)
      × (lessons : List (LessonOf host)) × (report : Report) × IsReport host settings
          (lessons_in host file) (lessons, report)
      × (stored ≡ left_by host (host.failed_write ".forge/lessons.yaml") lessons file)

  -- a run that raised before the write left the file; one that returned stored all lessons, faded as
  -- reported
  abbrev pub IsDecayed : LessonFile host.Num → Outcome (LessonFile host.Num) Report → Type 0
  IsDecayed file (raised e stored) = (stored ≡ file) ⊎ IsTorn file e stored
  IsDecayed file (done report stored) =
      (lessons : List (LessonOf host)) × (stored ≡ document lessons)
      × IsReport host settings (lessons_in host file) (lessons, report)

  abbrev IsPass : LessonFile host.Num → Outcome (LessonFile host.Num) (Unit {0}) → Type 0
  IsPass file (done _ stored) = stored ≡ file
  IsPass file (raised _ stored) = stored ≡ file

  -- the rest of `apply_decay` once the document is loaded
  stored-IsDecayed :
      (file : LessonFile host.Num) (o : Tried (List (LessonOf host) × Report))
      → IfValue o (IsReport host settings (lessons_in host file))
      → IsDecayed file ((checked host o >>= store_decayed host) file)
  unfolding store_decayed save
  stored-IsDecayed file (failed e) h = inl refl
  stored-IsDecayed file (got (lessons, report)) h = go (host.writable ".forge/lessons.yaml") refl
    where
      go :
          (b : Bool)
          → host.writable ".forge/lessons.yaml" ≡ b
          → IsDecayed file (
              ((λ f.
                    if b
                    then done tt (document lessons)
                    else raised
                        (os_error "lessons.yaml")
                        (left_by host (host.failed_write ".forge/lessons.yaml") lessons f))
                  >> pure report)
                file)
      go true w = (lessons, refl, h)
      go false w = inr (refl, w, lessons, report, h, refl)

  guarded :
      (file : LessonFile host.Num) (check : Store host (Unit {0})) (k : Store host Report)
      → IsPass file (check file)
      → IsDecayed file (k file)
      → IsDecayed file ((check >> k) file)
  guarded file check k p h = go (check file) p
    where
      go :
          (o : Outcome (LessonFile host.Num) (Unit {0}))
          → IsPass file o
          → IsDecayed file (((λ (_ : LessonFile host.Num). o) >> k) file)
      go (done a v) e = subst (λ v. IsDecayed file (k v)) (sym e) h
      go (raised e v) q = inl q

  raise_if-IsPass :
      (file : LessonFile host.Num) (b : Bool) (message : String)
      → IsPass file (raise_if host b message file)
  raise_if-IsPass file true message = refl
  raise_if-IsPass file false message = refl

  checks-IsPass :
      (file : LessonFile host.Num)
      → IsPass file (check_half_life host settings file)
        × IsPass file (check_dormancy_days host settings file)
        × IsPass file (check_threshold host settings file)
  unfolding check_half_life check_dormancy_days check_threshold
  checks-IsPass file = (
    raise_if-IsPass file (host.num_leb settings.half_life_days (host.literal "0"))
        ("half_life_days must be positive, got " <> host.show_num settings.half_life_days),
    raise_if-IsPass file (host.num_leb settings.dormancy_days (host.literal "0"))
        ("dormancy_days must be positive, got " <> host.show_num settings.dormancy_days),
    raise_if-IsPass file
        (not (
          host.num_leb (host.literal "0.0") settings.dormancy_threshold
          && host.num_leb settings.dormancy_threshold (host.literal "1.0")))
        ("dormancy_threshold must be within [0, 1], got "
          <> host.show_num settings.dormancy_threshold),
  )

  loaded :
      (timestamp : String) (file : LessonFile host.Num) (now : Tried host.Moment)
      → IsDecayed file (
          (do
            reference_now ← checked host now
            lessons ← load host
            result ← checked host (decay_lessons host settings timestamp reference_now lessons)
            store_decayed host result)
            file)
  unfolding load
  loaded timestamp file (failed e) = inl refl
  loaded timestamp missing (got now) =
      stored-IsDecayed missing (decay_lessons host settings timestamp now [])
        (decay_lessons-IsReport host settings timestamp now [])
  loaded timestamp (broken message) (got now) = inl refl
  loaded timestamp (document lessons) (got now) =
      stored-IsDecayed (document lessons) (decay_lessons host settings timestamp now lessons)
        (decay_lessons-IsReport host settings timestamp now lessons)

  -- A run of the decay that raises leaves the store as it was, unless it is the write of the lessons
  -- that raises, which leaves what a failed write of them leaves. A run that returns keeps every
  -- lesson in its place with all that it says but for confidence and dormancy, changes only approved
  -- lessons that were awake, leaves none of them awake below the threshold, and reports how many it
  -- examined and exactly those that fell asleep; and so does the document whose write raises.
  pub apply_decay-IsDecayed :
      (timestamp : String) (file : LessonFile host.Num)
      → IsDecayed file (apply_decay host settings timestamp file)
  unfolding apply_decay decay_store
  apply_decay-IsDecayed timestamp file =
      let run : Store host Report = decay_store host settings timestamp in
      let (p, q, r) = checks-IsPass file in
      guarded file (check_half_life host settings)
        (check_dormancy_days host settings >> (check_threshold host settings >> run)) p
        (guarded file (check_dormancy_days host settings) (check_threshold host settings >> run) q (
          guarded file (check_threshold host settings) run r
            (loaded timestamp file (parse_timestamp host timestamp))))
