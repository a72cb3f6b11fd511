-- ===== src/Memory/Lessons/Rendering.antt =====
-- memory/lessons.py: the lessons of a stage's context, with their use recorded.
use forge_os.Base.{ℕ, ◌+◌, String, Option, none, some, List, [], ◌∷◌, map, if◌then◌else◌, contains}
use forge_os.Base.Dict.{Dict, lookup, insert}
use forge_os.Base.Outcome.{raise, pure, key_error, ◌>>=◌, ◌>>◌}
use forge_os.Host.{Host}
use forge_os.Memory.Lessons.{LessonOf, Store, load, save, approved_for_context}

pub record Rendered (Num : Type 0) : Type 0 where
  pub id : String
  pub text : String
  pub confidence : Num
  pub tags : List String
  pub stage_id : Option String

module _ (host : Host) where
  unfoldable pub used : String → LessonOf host → LessonOf host
  used now l = record l { last_used_at = some now; use_count = l.use_count + 1 }

  unfoldable pub render : LessonOf host → Rendered host.Num
  render l = record {
    id = l.id;
    text = l.text;
    confidence = l.confidence;
    tags = l.tags;
    stage_id = l.stage_id;
  }

  -- the loop over the document: the lessons with their use recorded, and the rendered ones
  unfoldable pub mark_used : List String → String → List (LessonOf host) → List (LessonOf host)
  unfolding used
  mark_used ids now = map (λ l. if contains ids l.id then used now l else l)

  unfoldable pub rendered_dict :
      List String → List (LessonOf host) → Dict (Rendered host.Num) → Dict (Rendered host.Num)
  unfolding render insert
  rendered_dict ids [] d = d
  rendered_dict ids (l ∷ ls) d =
      rendered_dict ids ls (if contains ids l.id then insert l.id (render l) d else d)

  -- `[rendered[lesson_id] for lesson_id in selected_ids]`
  unfoldable pub pick_rendered :
      List String → Dict (Rendered host.Num) → Option (List (Rendered host.Num))
  pick_rendered [] d = some []
  pick_rendered (i ∷ ids) d = elim (lookup i d) [
    | none ↦ none
    | some r ↦ elim (pick_rendered ids d) [ none ↦ none | some rs ↦ some (r ∷ rs) ]
  ]

  or_key_error : Option (List (Rendered host.Num)) → Store host (List (Rendered host.Num))
  or_key_error none = raise key_error
  or_key_error (some rs) = pure rs

  render_selected : String → List String → Store host (List (Rendered host.Num))
  unfolding load save mark_used rendered_dict pick_rendered or_key_error lookup
  render_selected now [] = pure []
  render_selected now (i ∷ ids) = do
    lessons ← load host
    save host (mark_used (i ∷ ids) now lessons)
    or_key_error (pick_rendered (i ∷ ids) (rendered_dict (i ∷ ids) lessons []))

  unfoldable pub render_context :
      String → Option String → host.Num → ℕ → Store host (List (Rendered host.Num))
  unfolding approved_for_context render_selected
  render_context now stage_id min_confidence limit = do
    selected ← approved_for_context host stage_id min_confidence limit
    render_selected now (map (λ l. l.id) selected)
