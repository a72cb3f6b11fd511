-- ===== src/Daemon/Scheduler/Delays.antt =====
-- Which tasks run, and when they run again.
use forge_os.Base.{
  append_nil, append_cons, AllDifferent, ℕ, ◌+◌, String, Bool, true, false, not, Option, none, some,
  List, [], ◌∷◌, ◌++◌, ◌≡◌, refl, ap, sym, ◌∙◌, arith, map, filter, All, if◌then◌else◌, contains,
  ltb, ◌==◌, eq_iff,
}
use forge_os.Base.Dict.{Dict, lookup, insert, lookup-insert}
use forge_os.Daemon.Scheduler.{
  ScheduledTask, TaskResult, Runner, is_waiting, run_task, run_tasks, run_pending,
}

abbrev pub task_names : List ScheduledTask → List String
task_names = map (λ t. t.name)

-- the tasks that are due, in their order
pub due_tasks : Dict ℕ → ℕ → List ScheduledTask → List ScheduledTask
due_tasks next_due now = filter (λ t. not (is_waiting next_due t.name now))

-- whether a task waits is decided by the entry of its name
waiting-insert :
    (d : Dict ℕ) (n m : String) (t now : ℕ)
    → is_waiting (insert n t d) m now ≡ (if n == m then ltb now t else is_waiting d m now)
unfolding is_waiting
waiting-insert d n m t now = ap (λ o. test o) (lookup-insert n m t d) ∙ split (n == m)
  where
    test : Option ℕ → Bool
    test o = elim o [ none ↦ false | some due ↦ ltb now due ]

    split :
        (b : Bool)
        → test (if b then some t else lookup m d) ≡ (if b then ltb now t else test (lookup m d))
    split true = refl
    split false = refl

due-insert :
    (d : Dict ℕ) (n : String) (t now : ℕ) (ts : List ScheduledTask)
    → contains (task_names ts) n ≡ false
    → due_tasks (insert n t d) now ts ≡ due_tasks d now ts
unfolding due_tasks
due-insert d n t now [] h = refl
due-insert d n t now (x ∷ ts) h = ground (
  arith,
  due-insert d n t now ts,
  waiting-insert d n x.name t now,
  eq_iff n x.name,
  eq_iff x.name n,
)

abbrev told : ℕ → ScheduledTask → String × TaskResult
told now t = (t.name, t.run now)

-- one task of the loop, whose name no later task has
step-ran :
    (now : ℕ) (t : ScheduledTask) (ts : List ScheduledTask) (r : Runner) (waits : Bool)
    → contains (task_names ts) t.name ≡ false
    → (let next = if waits then r else run_task now t r in
        next.ran ++ task_names (due_tasks next.next_due now ts))
      ≡ r.ran
        ++ task_names
            (if not waits then t ∷ due_tasks r.next_due now ts else due_tasks r.next_due now ts)
unfolding run_task
step-ran now t ts r true h = refl
step-ran now t ts r false h =
    ap (λ l. (r.ran ++ t.name ∷ []) ++ task_names l)
      (due-insert r.next_due t.name (now + t.interval_seconds) now ts h)
    ∙ append_cons r.ran t.name _

run_tasks-ran :
    (now : ℕ) (ts : List ScheduledTask) (r : Runner)
    → AllDifferent (task_names ts)
    → (run_tasks now ts r).ran ≡ r.ran ++ task_names (due_tasks r.next_due now ts)
unfolding run_tasks due_tasks
run_tasks-ran now [] r d = sym (append_nil r.ran)
run_tasks-ran now (t ∷ ts) r d =
    let next = if is_waiting r.next_due t.name now then r else run_task now t r in
    run_tasks-ran now ts next d.1 ∙ step-ran now t ts r (is_waiting r.next_due t.name now) d.0

-- With different names, the tasks that a round runs are the due ones, each once and in the order of
-- the list, whatever any of them gives.
pub run_pending-due :
    (tasks : List ScheduledTask) (now : ℕ) (next_due : Dict ℕ)
    → AllDifferent (task_names tasks)
    → (run_pending tasks now next_due).ran ≡ task_names (due_tasks next_due now tasks)
unfolding run_pending
run_pending-due tasks now next_due d =
    run_tasks-ran now tasks (record { next_due = next_due; ran = []; notices = [] }) d

-- a round does not touch the entry of another name
step-others :
    (now later : ℕ) (t : ScheduledTask) (r : Runner) (n : String) (waits : Bool)
    → (t.name == n) ≡ false
    → is_waiting (if waits then r else run_task now t r).next_due n later
      ≡ is_waiting r.next_due n later
unfolding run_task
step-others now later t r n true h = refl
step-others now later t r n false h =
    waiting-insert r.next_due t.name n (now + t.interval_seconds) later
    ∙ ap (λ b. if b then ltb later (now + t.interval_seconds) else is_waiting r.next_due n later) h

run_tasks-others :
    (now later : ℕ) (ts : List ScheduledTask) (r : Runner) (n : String)
    → contains (task_names ts) n ≡ false
    → is_waiting (run_tasks now ts r).next_due n later ≡ is_waiting r.next_due n later
unfolding run_tasks
run_tasks-others now later [] r n h = refl
run_tasks-others now later (t ∷ ts) r n h =
    run_tasks-others now later ts (if is_waiting r.next_due t.name now then r else run_task now t r)
      n (ground (arith, eq_iff t.name n, eq_iff n t.name))
    ∙ step-others now later t r n (is_waiting r.next_due t.name now)
        (ground (arith, eq_iff t.name n, eq_iff n t.name))

-- whether the task waits at `later`, after a round at `now`
abbrev pub waits_after : Dict ℕ → ℕ → ℕ → ScheduledTask → Bool
waits_after d now later t =
    if is_waiting d t.name now
    then is_waiting d t.name later
    else ltb later (now + t.interval_seconds)

step_self :
    (now later : ℕ) (t : ScheduledTask) (r : Runner) (waits : Bool)
    → is_waiting (if waits then r else run_task now t r).next_due t.name later
      ≡ (if waits then is_waiting r.next_due t.name later else ltb later (now + t.interval_seconds))
unfolding run_task
step_self now later t r true = refl
step_self now later t r false =
    waiting-insert r.next_due t.name t.name (now + t.interval_seconds) later
    ∙ ap
        (λ b.
          if b then ltb later (now + t.interval_seconds) else is_waiting r.next_due t.name later)
        same
  where
    same : (t.name == t.name) ≡ true
    same = ground (arith, eq_iff t.name t.name)

waits_after-step :
    (now later : ℕ) (t : ScheduledTask) (r : Runner) (waits : Bool) (x : ScheduledTask)
    → (t.name == x.name) ≡ false
    → waits_after (if waits then r else run_task now t r).next_due now later x
      ≡ waits_after r.next_due now later x
waits_after-step now later t r waits x h = λ i.
    if step-others now now t r x.name waits h i
    then step-others now later t r x.name waits h i
    else ltb later (now + x.interval_seconds)

-- With different names, whether a task waits at a later time is decided so after a round: one that
-- ran waits until an interval after the round, and one that did not run waits as it did before.
pub fixed_delay :
    (now later : ℕ) (ts : List ScheduledTask) (r : Runner)
    → AllDifferent (task_names ts)
    → All
        (λ t.
          is_waiting (run_tasks now ts r).next_due t.name later
          ≡ waits_after r.next_due now later t)
        ts
unfolding run_tasks
fixed_delay now later [] r d = tt
fixed_delay now later (t ∷ ts) r d = (
  run_tasks-others now later ts next t.name d.0
      ∙ step_self now later t r (is_waiting r.next_due t.name now),
  rest ts d.0 (fixed_delay now later ts next d.1),
)
  where
    next : Runner
    next = if is_waiting r.next_due t.name now then r else run_task now t r

    rest :
        (xs : List ScheduledTask)
        → contains (task_names xs) t.name ≡ false
        → All
            (λ x.
              is_waiting (run_tasks now ts next).next_due x.name later
              ≡ waits_after next.next_due now later x)
            xs
        → All
            (λ x.
              is_waiting (run_tasks now ts next).next_due x.name later
              ≡ waits_after r.next_due now later x)
            xs
    rest [] h a = tt
    rest (x ∷ xs) h a = (
      a.0
          ∙ waits_after-step now later t r (is_waiting r.next_due t.name now) x
              (ground (arith, eq_iff t.name x.name, eq_iff x.name t.name)),
      rest xs (ground (arith, eq_iff t.name x.name, eq_iff x.name t.name)) a.1,
    )
