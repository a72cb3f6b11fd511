-- ===== src/Memory/Lessons.antt =====
-- memory/lessons.py and the `Lesson` of memory/models.py: the lesson store of a project.
pub mod Context
pub mod Rendering
use forge_os.Base.{
  ℕ, ◌+◌, String, Bool, true, false, not, ◌&&◌, ◌||◌, Option, none, some, List, [], ◌∷◌, ◌++◌, ◌<>◌,
  map, if◌then◌else◌, ◌==◌, filter, take, contains, opt_eq, is_none,
}
use forge_os.Base.{◌≡◌, refl, ap, ◌∙◌}
use forge_os.Base.Dict.{Dict, lookup, insert}
use forge_os.Base.Sort.{sorted}
use forge_os.Base.Text.{str_leb}
use forge_os.Base.Outcome.{
  Action, Outcome, done, raised, raise, os_error, pure, Error, lesson_error, validation_error,
  key_error, ◌>>=◌, ◌>>◌,
}
use forge_os.Host.{Host, FailedWrite, untouched, emptied, garbled, cut}

pub data LessonStatus : Type 0 where
  pending approved deprecated : LessonStatus

pub data LessonSource : Type 0 where
  manual inferred reflection : LessonSource

pub record Lesson (Num : Type 0) : Type 0 where
  pub id : String
  pub text : String
  pub status : LessonStatus
  pub confidence : Num
  pub tags : List String
  pub stage_id : Option String
  pub source : LessonSource
  pub created_at : String
  pub updated_at : String
  pub approved_at : Option String
  pub deprecated_at : Option String
  pub last_used_at : Option String
  pub use_count : ℕ
  pub dormant : Bool
  pub dormant_at : Option String
  pub metadata : Dict String

-- `.forge/lessons.yaml`: not there, not readable as a lesson document, or its lessons.
pub data LessonFile (Num : Type 0) : Type 0 where
  missing : LessonFile Num
  broken : String → LessonFile Num
  document : List (Lesson Num) → LessonFile Num

abbrev pub status_eq : LessonStatus → LessonStatus → Bool
status_eq pending pending = true
status_eq approved approved = true
status_eq deprecated deprecated = true
status_eq _ _ = false

module _ (host : Host) where
  abbrev pub LessonOf : Type 0
  LessonOf = Lesson host.Num

  abbrev pub Store : Type 0 → Type 0
  Store A = Action (LessonFile host.Num) A

  load_file : LessonFile host.Num → Store (List LessonOf)
  load_file missing = pure []
  load_file (broken message) = raise (lesson_error message)
  load_file (document lessons) = pure lessons

  unfoldable pub load : Store (List LessonOf)
  unfolding load_file
  load file = load_file file file

  -- the file after a write of the lessons that raised
  abbrev pub left_by : FailedWrite → List LessonOf → LessonFile host.Num → LessonFile host.Num
  left_by untouched lessons file = file
  left_by emptied lessons file = document []
  left_by (garbled message) lessons file = broken message
  left_by (cut n) lessons file = document (take n lessons)

  unfoldable pub save : List LessonOf → Store (Unit {0})
  save lessons file =
      if host.writable ".forge/lessons.yaml"
      then done tt (document lessons)
      else raised (os_error "lessons.yaml")
          (left_by (host.failed_write ".forge/lessons.yaml") lessons file)

  -- a save that is written, and what returns after it
  pub save-done :
      {A : Type 0} (lessons : List LessonOf) (a : A) (file : LessonFile host.Num)
      → host.writable ".forge/lessons.yaml" ≡ true
      → (save lessons >> pure a) file ≡ done a (document lessons)
  unfolding save
  save-done lessons a file w = rw (w, ◌>>◌, ◌>>=◌) refl

  -- `normalize_tags`
  unfoldable pub normalize_tags : List String → List String → List String
  normalize_tags seen [] = seen
  normalize_tags seen (tag ∷ tags) =
      let candidate = host.lower (host.strip tag) in
      normalize_tags
        (if not (candidate == "") && not (contains seen candidate)
          then seen ++ candidate ∷ []
          else seen)
        tags

  -- the validators of `text` and of `confidence`
  unfoldable pub is_acceptable : String → host.Num → Bool
  is_acceptable text confidence =
      not (host.strip text == "")
      && (host.num_leb (host.literal "0.0") confidence
          && host.num_leb confidence (host.literal "1.0"))

  -- the key `(lesson.created_at, lesson.id)`
  unfoldable pub created_leb : LessonOf → LessonOf → Bool
  created_leb a b =
      if str_leb a.created_at b.created_at
      then if str_leb b.created_at a.created_at then str_leb a.id b.id else true
      else false

  abbrev keep_given : Option String → (String → LessonOf → Bool) → List LessonOf → List LessonOf
  keep_given none test lessons = lessons
  keep_given (some s) test lessons = filter (test s) lessons

  abbrev keep_status : Option LessonStatus → List LessonOf → List LessonOf
  keep_status none lessons = lessons
  keep_status (some status) lessons = filter (λ l. status_eq l.status status) lessons

  unfoldable pub list : Option LessonStatus → Option String → Option String → Store (List LessonOf)
  unfolding created_leb load
  list status stage_id tag = do
    lessons ← load
    let by_status = keep_status status lessons
    let by_stage = keep_given stage_id (λ s l. is_none l.stage_id || opt_eq l.stage_id s) by_status
    let by_tag = keep_given tag (λ t l. contains l.tags (host.lower (host.strip t))) by_stage
    pure (sorted created_leb by_tag)

  -- `lesson-<uuid4>` and the clock's reading are the arguments `uuid` and `now`
  unfoldable pub new_lesson :
      String
      → String
      → String
      → host.Num
      → List String
      → Option String
      → LessonSource
      → LessonStatus
      → Dict String
      → LessonOf
  unfolding normalize_tags
  new_lesson uuid now text confidence tags stage_id source status metadata = record {
    id = "lesson-" <> uuid;
    text = host.strip text;
    status = status;
    confidence = confidence;
    tags = normalize_tags [] tags;
    stage_id = stage_id;
    source = source;
    created_at = now;
    updated_at = now;
    approved_at = none;
    deprecated_at = none;
    last_used_at = none;
    use_count = 0;
    dormant = false;
    dormant_at = none;
    metadata = metadata;
  }

  unfoldable pub add :
      String
      → String
      → String
      → host.Num
      → List String
      → Option String
      → LessonSource
      → Option LessonStatus
      → Dict String
      → Store LessonOf
  unfolding load save new_lesson is_acceptable
  add uuid now text confidence tags stage_id source status metadata =
      let status' : LessonStatus = elim status [ none ↦ pending | some s ↦ s ] in
      let lesson = new_lesson uuid now text confidence tags stage_id source status' metadata in
      if is_acceptable text confidence
      then (do lessons ← load; save (lessons ++ lesson ∷ []); pure lesson)
      else raise validation_error

  pub add-done :
      (uuid now words : String) (confidence : host.Num) (tags : List String)
      (stage_id : Option String) (source : LessonSource) (status : LessonStatus)
      (metadata : Dict String) (file : LessonFile host.Num) (lessons : List LessonOf)
      → is_acceptable words confidence ≡ true
      → host.writable ".forge/lessons.yaml" ≡ true
      → load file ≡ done lessons file
      → (l : LessonOf) × (add uuid now words confidence tags stage_id source
            (some status)
            metadata
            file
          ≡ done l (document (lessons ++ l ∷ [])))
  unfolding add
  add-done uuid now words confidence tags stage_id source status metadata file lessons a w e =
      let l = new_lesson uuid now words confidence tags stage_id source status metadata in
      (
        l,
        rw a (
            ap
              (λ (o : Outcome (LessonFile host.Num) (List LessonOf)).
                elim o as (λ _. Outcome (LessonFile host.Num) LessonOf) [
                  | done ls v ↦ (save (ls ++ l ∷ []) >> pure l) v
                  | raised x v ↦ raised x v
                ])
              e
            ∙ save-done (lessons ++ l ∷ []) l file w),
      )

  -- `_require_lesson` and the assignments to the lesson that it finds: the lessons with the first
  -- one of that identifier changed
  unfoldable pub change_lesson :
      String → (LessonOf → LessonOf) → List LessonOf → Option (LessonOf × List LessonOf)
  change_lesson lesson_id f [] = none
  change_lesson lesson_id f (l ∷ ls) =
      let later = change_lesson lesson_id f ls in
      if l.id == lesson_id
      then some (f l, f l ∷ ls)
      else elim later [ none ↦ none | some (m, ms) ↦ some (m, l ∷ ms) ]

  change_found : String → Option (LessonOf × List LessonOf) → Store LessonOf
  unfolding save
  change_found lesson_id none = raise (lesson_error ("Unknown lesson `" <> (lesson_id <> "`.")))
  change_found lesson_id (some (lesson, lessons)) = do save lessons; pure lesson

  unfoldable pub edit : String → (LessonOf → LessonOf) → Store LessonOf
  unfolding load change_lesson change_found
  edit lesson_id f = do lessons ← load; change_found lesson_id (change_lesson lesson_id f lessons)

  unfoldable pub approve : String → String → Store LessonOf
  unfolding edit
  approve lesson_id now = edit lesson_id λ l. record l {
    status = approved;
    approved_at = some now;
    deprecated_at = none;
    updated_at = now;
  }

  unfoldable pub deprecate : String → String → Store LessonOf
  unfolding edit
  deprecate lesson_id now =
      edit lesson_id
        λ l. record l { status = deprecated; deprecated_at = some now; updated_at = now }

  unfoldable pub revive : String → String → Store LessonOf
  unfolding edit
  revive lesson_id now =
      edit lesson_id λ l. record l { dormant = false; dormant_at = none; updated_at = now }

  -- the key `(lesson.confidence, lesson.updated_at)` with `reverse=True`
  unfoldable pub context_leb : LessonOf → LessonOf → Bool
  context_leb a b =
      if host.num_leb b.confidence a.confidence
      then if host.num_leb a.confidence b.confidence
        then str_leb b.updated_at a.updated_at
        else true
      else false

  -- `lesson.stage_id is None or stage_id is None or lesson.stage_id == stage_id`
  abbrev stage_fits : Option String → Option String → Bool
  stage_fits none _ = true
  stage_fits (some s) none = true
  stage_fits (some s) (some t) = s == t

  unfoldable pub is_usable : Option String → host.Num → LessonOf → Bool
  is_usable stage_id min_confidence l =
      not l.dormant && (host.num_leb min_confidence l.confidence && stage_fits l.stage_id stage_id)

  unfoldable pub approved_for_context : Option String → host.Num → ℕ → Store (List LessonOf)
  unfolding list is_usable context_leb
  approved_for_context stage_id min_confidence limit = do
    lessons ← list (some approved) none none
    pure (take limit (sorted context_leb (filter (is_usable stage_id min_confidence) lessons)))
