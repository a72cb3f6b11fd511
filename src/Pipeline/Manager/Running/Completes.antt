-- ===== src/Pipeline/Manager/Running/Completes.antt =====
-- The reflection and the gates of a stage that completes, where nothing fails.
use mathlib.Core.Path.{subst}
use forge_os.Base.{
  ℕ, ◌+◌, String, true, false, ◌&&◌, ◌<>◌, some, List, [], ◌∷◌, ◌≡◌, refl, sym, ap, ◌∙◌, any,
}
use forge_os.Base.Outcome.{Outcome, done, raised, ◌>>=◌}
use forge_os.Host.{Host}
use forge_os.Memory.Lessons.{
  LessonFile, missing, broken, document, LessonOf, reflection, pending, load, add-done,
}
use forge_os.Memory.Reflections.{
  Memory, Reflection, on_lessons, stage_reflection, save as keep_reflection,
  record_stage_completion,
}
use forge_os.Events.Model.{Value}
use forge_os.Events.Bus.{Bus, emit}
use forge_os.Gates.Model.{GateCriterion}
use forge_os.Gates.Coordinator.{applies, has_blocking_failures}
use forge_os.Gates.Coordinator.Stage.{evaluate_stage, emit_gate_event, load_gates, evaluate_loaded}
use forge_os.Gates.Coordinator.Verdicts.{is_blocking, stage_blocked}
use forge_os.Pipeline.World.{World, clock, on_memory}
use forge_os.Pipeline.Manager.{reflect}
use forge_os.Pipeline.Manager.Running.{HasLessons, MustDone, MustDone-bind, IsReviewable}
use forge_os.Pipeline.Manager.Running.Writes.{emit-MustDone}

module _ (host : Host) (review : IsReviewable host) where
  record_stage_completion-MustDone :
      (uuid now uuid' now' stage_id : String) (m : Memory host.Num)
      → HasLessons m.lessons
      → MustDone
          (record_stage_completion host uuid now uuid' now' stage_id m)
          (λ _ m'. HasLessons m'.lessons)
  unfolding record_stage_completion load
  record_stage_completion-MustDone uuid now uuid' now' stage_id m h = go m.lessons h refl
    where
      words : String
      words =
          "Review completed `" <> (stage_id <> "` stage for reusable lessons before future work.")

      added :
          (lessons : List (LessonOf host))
          → load host m.lessons ≡ done lessons m.lessons
          → MustDone
              (record_stage_completion host uuid now uuid' now' stage_id m)
              (λ _ m'. HasLessons m'.lessons)
      added lessons e =
          let (l, q) =
            add-done host uuid now words (host.literal "0.4")
              ("reflection" ∷ "stage-completion" ∷ []) (some stage_id) reflection pending
              (("queued_by", "ReflectionStore.record_stage_completion") ∷ []) m.lessons lessons
              (review.accepted stage_id) review.written e in
          subst
            (λ (o : Outcome (LessonFile host.Num) (LessonOf host)).
              MustDone
                ((on_lessons host (λ _. o) >>= λ lesson.
                    keep_reflection host (stage_reflection host uuid' now' stage_id lesson.id))
                  m)
                (λ _ m'. HasLessons m'.lessons))
            (sym q) (unfold keep_reflection in tt)

      go :
          (f : LessonFile host.Num)
          → HasLessons f
          → f ≡ m.lessons
          → MustDone
              (record_stage_completion host uuid now uuid' now' stage_id m)
              (λ _ m'. HasLessons m'.lessons)
      go missing k e = added [] (subst (λ x. load host x ≡ done [] x) e refl)
      go (broken message) k e = absurd k
      go (document ls) k e = added ls (subst (λ x. load host x ≡ done ls x) e refl)

  -- `_record_stage_completion_reflection` returns and changes the memory only
  pub reflect-MustDone :
      (stage_id : String) (w : World host)
      → HasLessons w.memory.lessons
      → MustDone (reflect host stage_id w) (λ _ v.
        (v.state_file ≡ w.state_file)
        × (v.config ≡ w.config)
        × (v.bus.hooks ≡ w.bus.hooks)
        × (v.gate_file ≡ w.gate_file)
        × HasLessons v.memory.lessons)
  unfolding reflect clock on_memory
  reflect-MustDone stage_id w h = go _ (
      record_stage_completion-MustDone (host.uuid w.bus.ticks) _ (host.uuid (w.bus.ticks + 1)) _
        stage_id w.memory h)
    where
      b : Bus
      b = record w.bus { ticks = w.bus.ticks + 1 + 1 }

      go :
          (o : Outcome (Memory host.Num) Reflection)
          → MustDone o (λ _ m. HasLessons m.lessons)
          → MustDone {W = World host} {A = Unit {0}}
              (elim (elim o as (λ _. Outcome (World host) Reflection) [
                | done a m ↦ done a (record w { bus = b; memory = m })
                | raised e m ↦ raised e (record w { bus = b; memory = m })
              ]) [ done a v ↦ done tt v | raised e v ↦ raised e v ])
              (λ _ v.
                (v.state_file ≡ w.state_file)
                × (v.config ≡ w.config)
                × (v.bus.hooks ≡ w.bus.hooks)
                × (v.gate_file ≡ w.gate_file)
                × HasLessons v.memory.lessons)
      go (done a m) k = (refl, refl, refl, refl, k)
      go (raised e m) k = absurd k

  -- gates of which none blocks are evaluated, and only the event log and the clock change
  pub evaluate_stage-MustDone :
      (gates : List (GateCriterion host.Num)) (stage_id : String) (b : Bus)
      → any (λ h. h.blocking) b.hooks ≡ false
      → any (λ g. applies host stage_id g && is_blocking host g) gates ≡ false
      → MustDone
          (evaluate_stage host (record { gate_file = some gates; has_bus = true }) stage_id b)
          (λ results v. (has_blocking_failures results ≡ false) × (v.hooks ≡ b.hooks))
  unfolding evaluate_stage emit_gate_event load_gates evaluate_loaded
  evaluate_stage-MustDone gates stage_id b q p =
      MustDone-bind (λ _ v. v.hooks ≡ b.hooks) _
        (emit_gate_event host true "GateStarted" stage_id _) _ b
        (gate_event-MustDone "GateStarted" _ b q)
        (λ _ v e.
          MustDone-bind (λ _ u. u.hooks ≡ v.hooks) _
            (emit_gate_event host true "GateCompleted" stage_id _) _ _
            (gate_event-MustDone "GateCompleted" _ _ (ap (any (λ h. h.blocking)) e ∙ q))
            (λ _ u f. (stage_blocked host gates stage_id v.ticks ∙ p, f ∙ e)))
    where
      gate_event-MustDone :
          (event_type : String) (payload : List (String × Value ℕ)) (c : Bus)
          → any (λ h. h.blocking) c.hooks ≡ false
          → MustDone
              (emit_gate_event host true event_type stage_id payload c)
              (λ _ v. v.hooks ≡ c.hooks)
      gate_event-MustDone event_type payload c qc =
          MustDone-bind (λ _ v. Unit {0} × (v.hooks ≡ c.hooks)) _ (emit _) _
            (record c { ticks = c.ticks + 1 })
            (emit-MustDone host _ (record c { ticks = c.ticks + 1 }) qc) (λ _ v r. r.1)
