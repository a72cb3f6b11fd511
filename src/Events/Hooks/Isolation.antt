-- ===== src/Events/Hooks/Isolation.antt =====
-- Which failures stop a run of hooks.
use forge_os.Base.Sort.{any-sorted}
use forge_os.Base.{
  any-filter, filter, ◌==◌, ◌&&◌, ◌∙◌, ◌≡◌, refl, ◌⊎◌, inl, inr, true, false, List, [], ◌∷◌, arith,
  map, any, Bool-cases, ◌++◌, ◌<>◌, String, Bool, none, some, not, ap, sym,
}
use forge_os.Events.Model.{LifecycleEvent}
use forge_os.Events.Hooks.{
  RegisteredHook, HandlerRun, returns, raises, exceeds, HookRun, HookResult, succeeded, failed,
  timed_out, result_of, show_error, is_succeeded, keep, finished, blocked, run_one, stops,
  blocked_message, run_hooks, run, hooks_for, hook_leb,
}

run_hooks_clear :
    (hooks : List RegisteredHook) (e : LifecycleEvent)
    → any (λ h. stops h e) hooks ≡ false
    → run_hooks hooks e ≡ finished (map (λ h. run_one h e) hooks)
unfolding run_hooks
run_hooks_clear [] e h = refl
run_hooks_clear (x ∷ xs) e h = ground (arith, run_hooks_clear xs e)

-- the handler raises, or is still running when its time is up
abbrev pub misses : HandlerRun → Bool
misses (returns ms) = false
misses (raises message ms) = true
misses (exceeds ms) = true

abbrev pub reported : String → HandlerRun → HookResult
reported name (returns ms) = record {
  hook_name = name;
  status = succeeded;
  error = none;
  duration_ms = ms;
}
reported name (raises message ms) = record {
  hook_name = name;
  status = failed;
  error = some message;
  duration_ms = ms;
}
reported name (exceeds ms) = record {
  hook_name = name;
  status = timed_out;
  error = some "timeout";
  duration_ms = ms;
}

abbrev pub why_blocked : String → HandlerRun → String
why_blocked name (returns ms) = "Blocking hook `" <> (name <> "` failed: None")
why_blocked name (raises message ms) = "Blocking hook `" <> (name <> ("` failed: " <> message))
why_blocked name (exceeds ms) = "Blocking hook `" <> (name <> "` failed: timeout")

stops-misses :
    (x : RegisteredHook) (e : LifecycleEvent) → stops x e ≡ x.blocking && misses (x.handler e)
unfolding stops run_one result_of
stops-misses x e = go x.blocking (x.handler e)
  where
    go :
        (b : Bool) (r : HandlerRun) → b && not (is_succeeded (result_of x r).status) ≡ b && misses r
    go b (returns ms) = refl
    go b (raises message ms) = refl
    go b (exceeds ms) = refl

run_one-reported :
    (x : RegisteredHook) (e : LifecycleEvent) → run_one x e ≡ reported x.name (x.handler e)
unfolding run_one result_of
run_one-reported x e = go (x.handler e)
  where
    go : (r : HandlerRun) → result_of x r ≡ reported x.name r
    go (returns ms) = refl
    go (raises message ms) = refl
    go (exceeds ms) = refl

blocked_message-why :
    (x : RegisteredHook) (e : LifecycleEvent)
    → blocked_message x e ≡ why_blocked x.name (x.handler e)
unfolding blocked_message run_one result_of show_error
blocked_message-why x e = go (x.handler e)
  where
    go :
        (r : HandlerRun)
        → "Blocking hook `" <> (x.name <> ("` failed: " <> show_error (result_of x r).error))
          ≡ why_blocked x.name r
    go (returns ms) = refl
    go (raises message ms) = refl
    go (exceeds ms) = refl

-- a blocking hook that fails after others that do not stop the run
abbrev pub IsStopped : List RegisteredHook → LifecycleEvent → HookRun → Type 0
IsStopped hooks e result =
    (before : List RegisteredHook) × (x : RegisteredHook) × (after : List RegisteredHook) × (hooks
      ≡ before ++ x ∷ after)
    × (any (λ h. h.blocking && misses (h.handler e)) before ≡ false)
    × (x.blocking ≡ true)
    × (misses (x.handler e) ≡ true)
    × (result ≡ blocked (why_blocked x.name (x.handler e)))

run_hooks-result :
    (hooks : List RegisteredHook) (e : LifecycleEvent)
    → ((any (λ h. h.blocking && misses (h.handler e)) hooks ≡ false)
        × (run_hooks hooks e ≡ finished (map (λ h. reported h.name (h.handler e)) hooks)))
      ⊎ IsStopped hooks e (run_hooks hooks e)
unfolding run_hooks
run_hooks-result [] e = inl (refl, refl)
run_hooks-result (x ∷ xs) e = elim (Bool-cases (stops x e)) [
  | inl s ↦
      let t : x.blocking && misses (x.handler e) ≡ true = sym (stops-misses x e) ∙ s in
      inr (
        [],
        x,
        xs,
        refl,
        refl,
        ground (arith, t),
        ground (arith, t),
        rw s (ap blocked (blocked_message-why x e)),
      )
  | inr s ↦
      let t : x.blocking && misses (x.handler e) ≡ false = sym (stops-misses x e) ∙ s in
      elim (run_hooks-result xs e) [
        | inl (q, r) ↦ inl (
          rw t q,
          rw s (
              ap (keep (run_one x e)) r
              ∙ ap (λ o. finished (o ∷ map (λ h. reported h.name (h.handler e)) xs))
                  (run_one-reported x e)),
        )
        | inr (before, y, later, q, none_before, b, m, r) ↦ inr (
          x ∷ before,
          y,
          later,
          ap (◌∷◌ x) q,
          rw t none_before,
          b,
          m,
          rw s (ap (keep (run_one x e)) r),
        )
      ]
]

-- A run of hooks returns exactly when no blocking hook of the event raises or runs out of time; then
-- every hook of the event has run, in order, and is reported as succeeded, failed or timed out as
-- its handler did. Otherwise it raises the error of the first blocking hook of the event that
-- raises or runs out of time.
pub run_isolates :
    (hooks : List RegisteredHook) (e : LifecycleEvent)
    → ((any (λ h. h.blocking && misses (h.handler e)) (hooks_for hooks e.event_type) ≡ false)
        × (run hooks e
            ≡ finished (map (λ h. reported h.name (h.handler e)) (hooks_for hooks e.event_type))))
      ⊎ IsStopped (hooks_for hooks e.event_type) e (run hooks e)
unfolding run
run_isolates hooks e = run_hooks-result (hooks_for hooks e.event_type) e

stops-blocking : (x : RegisteredHook) (e : LifecycleEvent) → x.blocking ≡ false → stops x e ≡ false
unfolding stops
stops-blocking x e h = ground (arith, h)

-- Without a blocking hook among the registered ones, a run of hooks returns.
pub run_quiet :
    (hooks : List RegisteredHook) (e : LifecycleEvent)
    → any (λ h. h.blocking) hooks ≡ false
    → run hooks e ≡ finished (map (λ h. run_one h e) (hooks_for hooks e.event_type))
unfolding run hooks_for
run_quiet hooks e h = run_hooks_clear (hooks_for hooks e.event_type) e (
    any-sorted (λ x. stops x e) hook_leb (filter (λ x. x.event_type == e.event_type) hooks)
    ∙ any-filter (λ x. x.event_type == e.event_type) (λ x. stops x e) hooks
    ∙ quiet hooks h)
  where
    quiet :
        (l : List RegisteredHook)
        → any (λ x. x.blocking) l ≡ false
        → any (λ x. (x.event_type == e.event_type) && stops x e) l ≡ false
    quiet [] g = refl
    quiet (x ∷ xs) g = ground (arith, quiet xs, stops-blocking x e)
