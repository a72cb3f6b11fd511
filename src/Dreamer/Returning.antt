-- ===== src/Dreamer/Returning.antt =====
-- dreamer/decay.py: when a run of the decay returns.
use mathlib.Core.Path.{subst}
use forge_os.Base.{
  String, true, false, ◌&&◌, List, [], ◌∷◌, ◌≡◌, refl, ap, ◌∙◌, All, Bool-cases, inl, inr,
}
use forge_os.Base.Outcome.{done, ◌>>=◌}
use forge_os.Host.{Host}
use forge_os.Memory.Lessons.{
  LessonOf, LessonFile, Store, missing, broken, document, load, save, save-done,
}
use forge_os.Dreamer.{
  Tried, got, failed, Report, DecaySettings, is_skipped, decay_by, days_since, decay_lesson,
  decay_rest, decay_lessons, parse_timestamp, checked, store_decayed, apply_decay, check_half_life,
  check_dormancy_days, check_threshold, decay_store, no_report, join_reports,
}
use forge_os.Dreamer.Faded.{IsReport, IfValue, decay_lessons-IsReport, lessons_in}

module _ (host : Host) (settings : DecaySettings host) where
  -- positive times, and a threshold between 0 and 1
  abbrev pub IsSound : Type 0
  IsSound =
      (host.num_leb settings.half_life_days (host.literal "0") ≡ false)
      × (host.num_leb settings.dormancy_days (host.literal "0") ≡ false)
      × (host.num_leb (host.literal "0.0") settings.dormancy_threshold
            && host.num_leb settings.dormancy_threshold (host.literal "1.0")
          ≡ true)

  -- the time since the lesson's last use can be computed
  abbrev pub IsDated : host.Moment → LessonOf host → Type 0
  IsDated now l = (days : host.Num) × (days_since host now l ≡ got days)

  abbrev pub IsThere : LessonFile host.Num → Type 0
  IsThere missing = Unit
  IsThere (broken message) = ⊥
  IsThere (document lessons) = Unit

  decay_lesson-got :
      (timestamp : String) (now : host.Moment) (l : LessonOf host)
      → IsDated now l
      → (r : LessonOf host × Report) × (decay_lesson host settings timestamp now l ≡ got r)
  unfolding decay_lesson
  decay_lesson-got timestamp now l (days, e) = elim (Bool-cases (is_skipped host l)) [
    | inl s ↦ ((l, no_report), rw s refl)
    | inr s ↦ (decay_by host settings timestamp l days, rw (s, e) refl)
  ]

  decay_lessons-got :
      (timestamp : String) (now : host.Moment) (ls : List (LessonOf host))
      → All (IsDated now) ls
      → (r : List (LessonOf host) × Report) × (decay_lessons host settings timestamp now ls ≡ got r)
  unfolding decay_lessons
  decay_lessons-got timestamp now [] h = (([], no_report), refl)
  decay_lessons-got timestamp now (l ∷ ls) h =
      let ((m, r), e) = decay_lesson-got timestamp now l h.0 in
      let ((ms, s), f) = decay_lessons-got timestamp now ls h.1 in
      (
        (m ∷ ms, join_reports r s),
        ap
              (λ (o : Tried (LessonOf host × Report)).
                elim o as (λ _. Tried (List (LessonOf host) × Report)) [
                  | failed x ↦ failed x
                  | got changed ↦
                      decay_rest host changed (decay_lessons host settings timestamp now ls)
                ])
              e
            ∙ ap (decay_rest host (m, r)) f,
      )

  decay_store-done :
      (timestamp : String) (now : host.Moment) (file : LessonFile host.Num)
      (lessons : List (LessonOf host)) (report : Report)
      → host.writable ".forge/lessons.yaml" ≡ true
      → parse_timestamp host timestamp ≡ got now
      → IsThere file
      → decay_lessons host settings timestamp now (lessons_in host file) ≡ got (lessons, report)
      → decay_store host settings timestamp file ≡ done report (document lessons)
  unfolding decay_store load store_decayed save
  decay_store-done timestamp now file lessons report w p there e =
      ap (λ o. (checked host o >>= run) file) p ∙ go file there e
    where
      run : host.Moment → Store host Report
      run reference_now = load host >>= λ ls.
          checked host (decay_lessons host settings timestamp reference_now ls)
          >>= store_decayed host

      go :
          (f : LessonFile host.Num)
          → IsThere f
          → decay_lessons host settings timestamp now (lessons_in host f) ≡ got (lessons, report)
          → run now f ≡ done report (document lessons)
      go missing t q =
          ap (λ o. (checked host o >>= store_decayed host) missing) q
          ∙ save-done host lessons report missing w
      go (broken message) t q = absurd t
      go (document ls) t q =
          ap (λ o. (checked host o >>= store_decayed host) (document ls)) q
          ∙ save-done host lessons report (document ls) w

  -- With sound settings, a timestamp that can be read, a store that is missing or can be read
  -- and that can be written, and lessons whose time since the last use can be computed, the run returns, and stores the lessons
  -- that its report is about.
  pub apply_decay-returns :
      (timestamp : String) (now : host.Moment) (file : LessonFile host.Num)
      → IsSound
      → host.writable ".forge/lessons.yaml" ≡ true
      → parse_timestamp host timestamp ≡ got now
      → IsThere file
      → All (IsDated now) (lessons_in host file)
      → (lessons : List (LessonOf host)) × (report : Report) × (apply_decay host settings timestamp
            file
          ≡ done report (document lessons))
        × IsReport host settings (lessons_in host file) (lessons, report)
  unfolding apply_decay check_half_life check_dormancy_days check_threshold
  apply_decay-returns timestamp now file (a, b, c) w p there dated =
      let ((ms, s), e) = decay_lessons-got timestamp now (lessons_in host file) dated in
      (
        ms,
        s,
        rw (a, b, c) (decay_store-done timestamp now file ms s w p there e),
        subst (λ o. IfValue o (IsReport host settings (lessons_in host file))) e
            (decay_lessons-IsReport host settings timestamp now (lessons_in host file)),
      )
