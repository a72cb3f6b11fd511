-- ===== src/Memory/Reflections.antt =====
-- memory/reflections.py, what a completed stage leaves behind. A reflection is a file of its own.
use forge_os.Base.{String, Option, some, List, [], ◌∷◌, ◌++◌, ◌<>◌}
use forge_os.Base.Dict.{Dict}
use forge_os.Base.Outcome.{Action, done, raised, ◌>>=◌}
use forge_os.Host.{Host}
use forge_os.Memory.Lessons.{LessonFile, reflection, pending, add}

pub record Reflection : Type 0 where
  pub id : String
  pub stage_id : Option String
  pub event_type : String
  pub summary : String
  pub observations : List String
  pub lesson_ids : List String
  pub created_at : String
  pub metadata : Dict String

pub record Memory (Num : Type 0) : Type 0 where
  pub lessons : LessonFile Num
  pub reflections : List Reflection

module _ (host : Host) where
  abbrev pub on_lessons : {A : Type 0} → Action (LessonFile host.Num) A → Action (Memory host.Num) A
  on_lessons m w = elim (m w.lessons) [
    | done a f ↦ done a (record w { lessons = f })
    | raised e f ↦ raised e (record w { lessons = f })
  ]

  -- `save` writes one more file
  unfoldable pub save : Reflection → Action (Memory host.Num) Reflection
  save r w = done r (record w { reflections = w.reflections ++ r ∷ [] })

  unfoldable pub stage_reflection : String → String → String → String → Reflection
  stage_reflection uuid now stage_id lesson_id = record {
    id = "reflection-" <> uuid;
    stage_id = some stage_id;
    event_type = "StageCompleted";
    summary = "Stage `" <> (stage_id <> "` completed; reflection captured for lesson review.");
    observations =
        "A stage completion occurred."
        ∷ "A pending lesson extraction item was queued for human approval." ∷ [];
    lesson_ids = lesson_id ∷ [];
    created_at = now;
    metadata = ("lesson_extraction_status", "pending_approval") ∷ [];
  }

  -- the lesson and the reflection read the clock and `uuid4` once each
  unfoldable pub record_stage_completion :
      String → String → String → String → String → Action (Memory host.Num) Reflection
  unfolding add save stage_reflection
  record_stage_completion uuid now uuid' now' stage_id = do
    lesson ← on_lessons (
        add host uuid now
          ("Review completed `" <> (stage_id <> "` stage for reusable lessons before future work."))
          (host.literal "0.4") ("reflection" ∷ "stage-completion" ∷ []) (some stage_id) reflection
          (some pending) (("queued_by", "ReflectionStore.record_stage_completion") ∷ []))
    save (stage_reflection uuid' now' stage_id lesson.id)
