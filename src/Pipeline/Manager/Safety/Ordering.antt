-- ===== src/Pipeline/Manager/Safety/Ordering.antt =====
-- Without overrides the pipeline moves only forward, one stage after the other.
use mathlib.Core.Path.{subst}
use forge_os.Base.{
  String, Bool, true, false, some, List, [], ◌∷◌, ◌≡◌, refl, sym, ◌∙◌, arith, if◌then◌else◌, ◌==◌,
  All, Bool-cases, inl, inr,
}
use mathlib.Core.Option.{some-injective}
use forge_os.Host.{Host}
use forge_os.Pipeline.State.{
  PipelineState, StageStatus, active, blocked, complete, not_started, is_complete,
}
use forge_os.Pipeline.World.{World}
use forge_os.Pipeline.Manager.Spec.{
  View, view, Stages, set_status, status_of, is_ready, Step, begins, finishes, blocks, Steps, here,
  next,
}
use forge_os.Pipeline.Manager.Keeping.{IfState, Holds-if, if-Holds}
use forge_os.Pipeline.Manager.Safety.Calls.{Call, IsForward, run_calls, forward_runs}

abbrev pub NotStarted : Stages → Type 0
NotStarted = All (λ s. s.1 ≡ not_started)

-- Complete stages, then at most one stage of another status, then stages that have not started.
abbrev pub InOrder : Stages → Type 0
InOrder [] = Unit
InOrder (s ∷ ss) = if is_complete s.1 then InOrder ss else NotStarted ss

-- a stage that has not started is not ready while nothing before it is complete
not_ready : (i : String) (ss : Stages) → NotStarted ss → is_ready i false ss ≡ false
unfolding is_ready
not_ready i [] h = refl
not_ready i (s ∷ ss) h = ground (arith, not_ready i ss h.1)

NotStarted-InOrder : (ss : Stages) → NotStarted ss → InOrder ss
NotStarted-InOrder [] h = tt
NotStarted-InOrder (s ∷ ss) h = rw h.0 h.1

no_status :
    (i : String) (st : StageStatus) (ss : Stages)
    → NotStarted ss
    → status_of i ss ≡ some st
    → st ≡ not_started
unfolding status_of
no_status i st [] h e = absurd (ground arith)
no_status i st (s ∷ ss) h e = ground (arith, no_status i st ss h.1)

module _ (s : String × StageStatus) (ss : Stages) where
  tail_of_complete : is_complete s.1 ≡ true → InOrder (s ∷ ss) → InOrder ss
  tail_of_complete k = subst (λ (x : Bool). if x then InOrder ss else NotStarted ss) k

  tail_of_other : is_complete s.1 ≡ false → InOrder (s ∷ ss) → NotStarted ss
  tail_of_other k = subst (λ (x : Bool). if x then InOrder ss else NotStarted ss) k

  cons_complete : is_complete s.1 ≡ true → InOrder ss → InOrder (s ∷ ss)
  cons_complete k h = subst (λ (x : Bool). if x then InOrder ss else NotStarted ss) (sym k) h

  cons_other : is_complete s.1 ≡ false → NotStarted ss → InOrder (s ∷ ss)
  cons_other k h = subst (λ (x : Bool). if x then InOrder ss else NotStarted ss) (sym k) h

InOrder-begin :
    (i : String) (before : Bool) (st : StageStatus) (ss : Stages)
    → InOrder ss
    → status_of i ss ≡ some st
    → is_complete st ≡ false
    → is_ready i before ss ≡ true
    → InOrder (set_status i active ss)
unfolding status_of set_status is_ready
InOrder-begin i b st [] o e c r = tt
InOrder-begin i b st (s ∷ ss) o e c r = elim (Bool-cases (s.0 == i)) [
  | inl m ↦ rw m (tail_of_other s ss (ground arith) o)
  | inr m ↦ elim (Bool-cases (is_complete s.1)) [
    | inl k ↦
        let ih : InOrder (set_status i active ss) =
          InOrder-begin i true st ss (tail_of_complete s ss k o) (ground arith) c (ground arith) in
        rw m (cons_complete s (set_status i active ss) k ih)
    | inr k ↦ absurd (ground (arith, not_ready i ss (tail_of_other s ss k o)))
  ]
]

-- the active stage is the one after the complete ones, so that setting it to `st` keeps the order
InOrder-set :
    (i : String) (st : StageStatus) (ss : Stages)
    → InOrder ss
    → status_of i ss ≡ some active
    → InOrder (set_status i st ss)
unfolding status_of set_status
InOrder-set i st [] o e = tt
InOrder-set i st (s ∷ ss) o e = elim (Bool-cases (s.0 == i)) [
  | inl m ↦
      let rest : NotStarted ss = tail_of_other s ss (ground arith) o in
      rw m (elim (Bool-cases (is_complete st)) [
        | inl k ↦ cons_complete (s.0, st) ss k (NotStarted-InOrder ss rest)
        | inr k ↦ cons_other (s.0, st) ss k rest
      ])
  | inr m ↦ elim (Bool-cases (is_complete s.1)) [
    | inl k ↦
        let ih : InOrder (set_status i st ss) =
          InOrder-set i st ss (tail_of_complete s ss k o) (ground arith) in
        rw m (cons_complete s (set_status i st ss) k ih)
    | inr k ↦ absurd (ground (arith, no_status i active ss (tail_of_other s ss k o)))
  ]
]

pub Step-InOrder : (c d : View) → Step c d → InOrder c.stages → InOrder d.stages
Step-InOrder c d (begins i st h k _ r e) o = rw e (InOrder-begin i true st c.stages o h k r)
Step-InOrder c d (finishes i h e) o = rw e (InOrder-set i complete c.stages o h)
Step-InOrder c d (blocks i h e) o = rw e (InOrder-set i blocked c.stages o h)

module _ (host : Host) (cs : List Call) (forward : All IsForward cs) (w : World host) where
  -- From a state file whose stages are some complete ones, at most one of another status and then
  -- only stages that have not started, any sequence of starts, completions and advances, failed ones
  -- included, leads to such a file.
  pub run_calls-InOrder :
      IfState host (λ c. InOrder c.stages) w.state_file
      → IfState host (λ c. InOrder c.stages) (run_calls host cs w).state_file
  run_calls-InOrder h =
      Holds-if host (λ c. InOrder c.stages) (run_calls host cs w)
        (forward_runs host (λ c. InOrder c.stages) Step-InOrder cs w forward
          (if-Holds host (λ c. InOrder c.stages) w h))

  -- The state file after any sequence of starts, completions and advances is reached from the file
  -- before by steps of the specification: a stage begins, finishes or is blocked.
  pub calls_refine :
      (s : PipelineState)
      → w.state_file ≡ some s
      → IfState host (Steps (view s)) (run_calls host cs w).state_file
  calls_refine s e = Holds-if host (Steps (view s)) (run_calls host cs w) (
      forward_runs host (Steps (view s)) (λ c d st r. next r st) cs w forward
        (λ t k. subst (λ u. Steps (view s) (view u)) (some-injective s t (sym e ∙ k)) here))
