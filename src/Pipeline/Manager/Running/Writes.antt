-- ===== src/Pipeline/Manager/Running/Writes.antt =====
-- The writes of the state files, the event of a transition and `save`, where nothing fails.
use mathlib.Core.Path.{subst}
use forge_os.Base.{
  ◌+◌, String, Bool, true, false, Option, some, ◌<>◌, ◌≡◌, refl, sym, any, if◌then◌else◌,
}
use forge_os.Base.Outcome.{Action, Outcome, done, raised}
use forge_os.Host.{Host}
use forge_os.Events.Model.{LifecycleEvent}
use forge_os.Events.Bus.{Bus, emit, dispatch, append_event, record_timings}
use forge_os.Events.Hooks.{HookRun}
use forge_os.Events.Hooks.Isolation.{run_quiet}
use forge_os.Events.Store.{append_state_event}
use forge_os.Pipeline.State.{PipelineState, model_dump}
use forge_os.Pipeline.World.{
  World, ForgeConfig, load_config, clock, write_state, write_markdown, on_bus, state_path,
  markdown_path,
}
use forge_os.Pipeline.Manager.Spec.{view}
use forge_os.Pipeline.Saving.{
  save, dual_write, emit_transition, log_transition, render_state_markdown,
}
use forge_os.Pipeline.Manager.Running.{
  MustDone, MustDone-bind, MustDone-then, IsWritable, IsCalm, IsSaved, IsSameRest,
}

module _ (host : Host) where
  pub write_state-done :
      (s : PipelineState) (w : World host)
      → host.writable state_path ≡ true
      → write_state host s w ≡ done tt (record w { state_file = some s })
  unfolding write_state
  write_state-done s w e = rw e refl

  pub write_markdown-done :
      (text : String) (w : World host)
      → host.writable markdown_path ≡ true
      → write_markdown host text w ≡ done tt (record w { markdown = text })
  unfolding write_markdown
  write_markdown-done text w e = rw e refl

  pub load_config-done :
      (w : World host) (c : ForgeConfig) → w.config ≡ some c → load_config host w ≡ done c w
  unfolding load_config
  load_config-done w c e = rw e refl

  dual_write-MustDone :
      (s : PipelineState) (w : World host)
      → MustDone (dual_write host s w) (λ _ v. IsSameRest host w v)
  unfolding dual_write
  dual_write-MustDone s w = go w.db_works
    where
      go :
          (b : Bool)
          → MustDone {A = Unit {0}}
              (if b
                then done tt (record w {
                  event_db =
                      (append_state_event w.event_db
                        ("project/" <> s.project_id)
                        (model_dump s)
                        (host.utc_now w.bus.ticks)).0;
                })
                else done tt w)
              (λ _ v. IsSameRest host w v)
      go true = (refl, refl, refl, refl, refl)
      go false = (refl, refl, refl, refl, refl)

  -- `save` keeps everything but the time
  pub save-MustDone :
      (writable : IsWritable host) (w : World host) (c : IsCalm host w) (s : PipelineState)
      → MustDone
          (save host s w)
          (λ t v. IsSaved host w v t × (t ≡ record s { updated_at = host.utc_now w.bus.ticks }))
  unfolding save clock
  save-MustDone writable w c s =
      let stamped : PipelineState = record s { updated_at = host.utc_now w.bus.ticks } in
      let u : World host = record w { bus = record w.bus { ticks = w.bus.ticks + 1 } } in
      let text : String = render_state_markdown c.config stamped in
      let x : World host = record u { state_file = some stamped } in
      let y : World host = record x { markdown = text } in
      MustDone-then _ (write_state host stamped) _ u x tt
        (write_state-done stamped u writable.state)
        (MustDone-then _ (load_config host) _ x x c.config
          (load_config-done x c.config c.configured)
          (MustDone-then _ (write_markdown host text) _ x y tt
            (write_markdown-done text x writable.markdown)
            (MustDone-bind (λ _ v. IsSameRest host y v) _ (dual_write host stamped) _ y
              (dual_write-MustDone stamped y)
              (λ _ v r. (
                record { file = r.0; config = r.1; hooks = r.2; gate_file = r.3; memory = r.4 },
                refl,
              )))))

  -- an event that no hook stops
  pub emit-MustDone :
      (event : LifecycleEvent) (b : Bus)
      → any (λ h. h.blocking) b.hooks ≡ false
      → MustDone (emit event b) (λ _ v. Unit {0} × (v.hooks ≡ b.hooks))
  unfolding emit append_event record_timings
  emit-MustDone event b q =
      subst
        (λ (r : HookRun).
          MustDone (dispatch event.event_type r (append_event event b))
            (λ _ v. Unit {0} × (v.hooks ≡ b.hooks)))
        (sym (run_quiet b.hooks event q)) (tt, refl)

  pub on_bus-MustDone :
      {A : Type 0} (R : A → Type 0) (m : Action Bus A) (w : World host)
      → MustDone (m w.bus) (λ a v. R a × (v.hooks ≡ w.bus.hooks))
      → MustDone (on_bus host m w) (λ a v. R a × IsSameRest host w v)
  unfolding on_bus
  on_bus-MustDone {A} R m w h = go (m w.bus) h
    where
      go :
          (o : Outcome Bus A)
          → MustDone o (λ a v. R a × (v.hooks ≡ w.bus.hooks))
          → MustDone {W = World host} {A = A}
              (elim o [
                | done a b ↦ done a (record w { bus = b })
                | raised e b ↦ raised e (record w { bus = b })
              ])
              (λ a v. R a × IsSameRest host w v)
      go (done a v) k = (k.0, (refl, refl, k.1, refl, refl))
      go (raised e v) k = absurd k

  -- `log_transition` keeps everything but the last event
  pub log_transition-MustDone :
      (writable : IsWritable host) (w : World host) (c : IsCalm host w) (event_type : String)
      (s : PipelineState) (stage_id : String) (reason : Option String)
      → MustDone
          (log_transition host event_type s stage_id reason w)
          (λ t v. IsSaved host w v t × (view t ≡ view s))
  unfolding log_transition emit_transition clock
  log_transition-MustDone writable w c event_type s stage_id reason =
      let u : World host = record w { bus = record w.bus { ticks = w.bus.ticks + 1 } } in
      MustDone-bind (λ _ v. IsSameRest host w v) _
        (emit_transition host event_type s stage_id reason) _ w
        (MustDone-bind (λ _ v. Unit {0} × IsSameRest host w v) _ (on_bus host (emit _)) _ u
          (on_bus-MustDone (λ _. Unit {0}) (emit _) u (emit-MustDone _ u.bus c.quiet))
          (λ _ v r. r.1))
        (λ event v r.
          let logged : PipelineState = record s { last_event_id = some event.event_id } in
          MustDone-then _ (write_state host logged) _ v (record v { state_file = some logged }) tt
            (write_state-done logged v writable.state)
            (
              record { file = refl; config = r.1; hooks = r.2; gate_file = r.3; memory = r.4 },
              refl,
            ))
