-- ===== src/Pipeline/Manager/Keeping/Saves.antt =====
-- The rules for `save`, `log_transition` and the calls that leave `.forge/state.json` alone.
use forge_os.Base.{String, Option, none, some, ◌≡◌, refl, ◌∙◌, Bool-cases, inl, inr}
use forge_os.Base.Outcome.{Action, Outcome, done, raised, after, pure, config_error, ◌>>=◌, ◌>>◌}
use forge_os.Events.Bus.{Bus}
use forge_os.Memory.Reflections.{Memory}
use forge_os.Host.{Host}
use forge_os.Pipeline.State.{PipelineState}
use forge_os.Pipeline.World.{
  World, Managed, ForgeConfig, markdown_path, load_config, clock, write_state, write_markdown,
  on_bus, on_memory,
}
use forge_os.Pipeline.Saving.{
  dual_write, save, emit_transition, log_transition, render_state_markdown,
}
use forge_os.Pipeline.Manager.Spec.{View, view}
use forge_os.Events.Bus.{emit}
use forge_os.Events.Model.{LifecycleEvent, new_event}
use forge_os.Pipeline.Saving.{transition_payload}
use forge_os.Pipeline.Manager.Keeping.{Triple, bind, frame_rule, write_rule, return_rule}

module _ (host : Host) where
  pub bind_frame :
      {A B : Type 0} (m : Managed host A) (f : A → Managed host B)
      → ((w : World host) → (after (m w)).state_file ≡ w.state_file)
      → ((a : A) (w : World host) → (after (f a w)).state_file ≡ w.state_file)
      → (w : World host) → (after ((m >>= f) w)).state_file ≡ w.state_file
  bind_frame {A} {B} m f hm hf w = split (m w) (hm w)
    where
      split :
          (o : Outcome (World host) A)
          → (after o).state_file ≡ w.state_file
          → (after {W = World host} {A = B}
              (elim o [ done a v ↦ f a v | raised e v ↦ raised e v ])).state_file
            ≡ w.state_file
      split (done a v) e = hf a v ∙ e
      split (raised x v) e = e

  pub clock_frame : (w : World host) → (after (clock host w)).state_file ≡ w.state_file
  unfolding clock
  clock_frame w = refl

  config_frame : (w : World host) → (after (load_config host w)).state_file ≡ w.state_file
  unfolding load_config
  config_frame w = split w.config w
    where
      split :
          (o : Option ForgeConfig) (w : World host)
          → (after {W = World host} {A = ForgeConfig}
              (elim o [ none ↦ raised config_error w | some c ↦ done c w ])).state_file
            ≡ w.state_file
      split none w = refl
      split (some c) w = refl

  markdown_frame :
      (text : String) (w : World host)
      → (after (write_markdown host text w)).state_file ≡ w.state_file
  unfolding write_markdown
  markdown_frame text w = elim (Bool-cases (host.writable markdown_path)) [
    | inl e ↦ rw e
    | inr e ↦ rw e
  ]

  dual_frame :
      (s : PipelineState) (w : World host) → (after (dual_write host s w)).state_file ≡ w.state_file
  unfolding dual_write
  dual_frame s w = elim (Bool-cases w.db_works) [ inl e ↦ rw e | inr e ↦ rw e ]

  pub bus_frame :
      {A : Type 0} (m : Action Bus A) (w : World host)
      → (after (on_bus host m w)).state_file ≡ w.state_file
  unfolding on_bus
  bus_frame {A} m w = split (m w.bus)
    where
      split :
          (o : Outcome Bus A)
          → (after {W = World host} {A = A} (elim o [
            | done a b ↦ done a (record w { bus = b })
            | raised e b ↦ raised e (record w { bus = b })
          ])).state_file
            ≡ w.state_file
      split (done a b) = refl
      split (raised e b) = refl

  pub memory_frame :
      {A : Type 0} (m : Action (Memory host.Num) A) (w : World host)
      → (after (on_memory host m w)).state_file ≡ w.state_file
  unfolding on_memory
  memory_frame {A} m w = split (m w.memory)
    where
      split :
          (o : Outcome (Memory host.Num) A)
          → (after {W = World host} {A = A} (elim o [
            | done a b ↦ done a (record w { memory = b })
            | raised e b ↦ raised e (record w { memory = b })
          ])).state_file
            ≡ w.state_file
      split (done a b) = refl
      split (raised e b) = refl

  module _ {C E : View → Type 0} (sub : (c : View) → C c → E c) where
    pub clock_rule : Triple host C (clock host) (λ _. Unit) C E
    clock_rule = frame_rule host sub (clock host) clock_frame

    -- `save` leaves the state that it is given, but for the time, and hands it back.
    pub save_rule :
        (D : View → Type 0) (subD : (c : View) → D c → E c) (s : PipelineState)
        → D (view s)
        → Triple host C (save host s) (λ t. view t ≡ view s) D E
    unfolding save
    save_rule D subD s d = bind host (clock host) _ clock_rule λ now _.
        let stamped : PipelineState = record s { updated_at = now } in
        bind host (write_state host stamped) _ (write_rule host sub D stamped d) λ _ _.
          bind host (load_config host) _ (frame_rule host subD (load_config host) config_frame)
            λ config _.
              bind host (write_markdown host (render_state_markdown config stamped)) _
                (frame_rule host subD (write_markdown host (render_state_markdown config stamped))
                  (markdown_frame (render_state_markdown config stamped)))
                λ _ _.
                  bind host (dual_write host stamped) _
                    (frame_rule host subD (dual_write host stamped) (dual_frame stamped))
                    λ _ _. return_rule host D (λ t. view t ≡ view s) stamped refl

  emit_frame :
      (t : String) (s : PipelineState) (i : String) (r : Option String) (w : World host)
      → (after (emit_transition host t s i r w)).state_file ≡ w.state_file
  unfolding emit_transition
  emit_frame t s i r w =
      bind_frame (clock host) (λ _. emitted) clock_frame
        (λ _.
          bind_frame (on_bus host (emit (event w))) (λ _. pure (event w))
            (bus_frame (emit (event w))) (λ _ v. refl))
        w
    where
      event : World host → LifecycleEvent
      event v =
          new_event (host.uuid v.bus.ticks) (host.utc_now v.bus.ticks) t (some i) "core"
            "state-manager" (transition_payload host s r)

      emitted : Managed host LifecycleEvent
      emitted = on_bus host (emit (event w)) >> pure (event w)

  module _ {C E : View → Type 0} (sub : (c : View) → C c → E c) where
    -- `log_transition` writes the state that it is given, with the event's identifier.
    pub log_rule :
        (D : View → Type 0) (t : String) (s : PipelineState) (i : String) (r : Option String)
        → D (view s)
        → Triple host C (log_transition host t s i r) (λ u. view u ≡ view s) D E
    unfolding log_transition
    log_rule D t s i r d =
        bind host (emit_transition host t s i r) _
          (frame_rule host sub (emit_transition host t s i r) (emit_frame t s i r))
          λ event _.
            let logged : PipelineState = record s { last_event_id = some event.event_id } in
            bind host (write_state host logged) _ (write_rule host sub D logged d)
              λ _ _. return_rule host D (λ u. view u ≡ view s) logged refl
