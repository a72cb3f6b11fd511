-- ===== src/Pipeline/Manager/Safety/Consistency.antt =====
-- At most one stage is active, and it is the current one: through every sequence of calls.
use forge_os.Base.{
  AllDifferent, ℕ, ◌+◌, ◌≤◌, String, true, false, Option, none, some, List, [], ◌∷◌, ◌≡◌, refl, ap,
  sym, map, arith, if◌then◌else◌, ◌==◌, eq_iff, All, contains, opt_eq, Bool-cases, inl, inr,
}
use mathlib.Core.Path.{subst}
use forge_os.Base.Outcome.{after}
use forge_os.Host.{Host}
use forge_os.Pipeline.State.{StageStatus, active, blocked, complete, is_active}
use forge_os.Pipeline.World.{World}
use forge_os.Pipeline.Manager.Spec.{
  View, view, Stages, set_status, status_of, has_active, force_status, Step, begins, finishes,
  blocks, Override, overrides,
}
use forge_os.Pipeline.Manager.Keeping.{Holds, IfState, Holds-if, if-Holds}
use forge_os.Pipeline.Manager.Safety.Calls.{Call, call, run_calls, call-keeps}

abbrev pub names : Stages → List String
names = map (λ s. s.0)

-- an active stage has the name `current`
abbrev pub IsCurrent : Option String → String × StageStatus → Type 0
IsCurrent current s = is_active s.1 ≡ true → opt_eq current s.0 ≡ true

pub record IsConsistent (c : View) : Type 0 where
  pub different : AllDifferent (names c.stages)
  pub single : All (IsCurrent c.current) c.stages

abbrev pub count_active : Stages → ℕ
count_active [] = 0
count_active (s ∷ ss) = (if is_active s.1 then 1 else 0) + count_active ss

names-set_status :
    (i : String) (st : StageStatus) (ss : Stages) → names (set_status i st ss) ≡ names ss
unfolding set_status
names-set_status i st [] = refl
names-set_status i st ((j, s) ∷ ss) = ground (arith, names-set_status i st ss)

names-force_status : (i : String) (ss : Stages) → names (force_status i ss) ≡ names ss
unfolding force_status
names-force_status i [] = refl
names-force_status i (s ∷ ss) = ap (◌∷◌ s.0) (unfold force_status in names-force_status i ss)

flip_eq : (i j : String) → (j == i) ≡ true → (i == j) ≡ true
flip_eq i j e = (eq_iff i j).1 (sym ((eq_iff j i).0 e))

single-quiet : (o : Option String) (ss : Stages) → has_active ss ≡ false → All (IsCurrent o) ss
single-quiet o [] h = tt
single-quiet o ((j, s) ∷ ss) h = ((λ a. absurd (ground arith)), single-quiet o ss (ground arith))

single-begin :
    (i : String) (ss : Stages)
    → has_active ss ≡ false
    → All (IsCurrent (some i)) (set_status i active ss)
unfolding set_status
single-begin i [] h = tt
single-begin i ((j, s) ∷ ss) h = elim (Bool-cases (j == i)) [
  | inl e ↦ rw e ((λ _. flip_eq i j e), single-quiet (some i) ss (ground arith))
  | inr e ↦ rw e ((λ a. absurd (ground arith)), single-begin i ss (ground arith))
]

single-keep :
    (o : Option String) (i : String) (ss : Stages)
    → All (IsCurrent o) ss
    → All (IsCurrent o) (set_status i blocked ss)
unfolding set_status
single-keep o i [] h = tt
single-keep o i ((j, s) ∷ ss) h = ground (arith, single-keep o i ss h.1)

single-other :
    (i : String) (ss : Stages)
    → contains (names ss) i ≡ false
    → All (IsCurrent (some i)) ss
    → All (IsCurrent none) ss
single-other i [] d h = tt
single-other i ((j, s) ∷ ss) d h = ground (arith, single-other i ss, eq_iff i j, eq_iff j i)

single-finish :
    (i : String) (ss : Stages)
    → AllDifferent (names ss)
    → All (IsCurrent (some i)) ss
    → All (IsCurrent none) (set_status i complete ss)
unfolding set_status
single-finish i [] d h = tt
single-finish i ((j, s) ∷ ss) d h = elim (Bool-cases (j == i)) [
  | inl e ↦ rw e (
    (λ a. cc),
    single-other i ss (subst (λ x. contains (names ss) x ≡ false) ((eq_iff j i).0 e) d.0) h.1,
  )
  | inr e ↦ rw e ((λ a. absurd (ground (arith, h.0 a, flip_eq j i))), single-finish i ss d.1 h.1)
]

single-force : (i : String) (ss : Stages) → All (IsCurrent (some i)) (force_status i ss)
unfolding force_status
single-force i [] = tt
single-force i ((j, s) ∷ ss) =
    (ground (arith, flip_eq i j), unfold force_status in single-force i ss)

names_of_some :
    (i : String) (o : Option String) (ss : Stages)
    → status_of i ss ≡ some active
    → All (IsCurrent o) ss
    → opt_eq o i ≡ true
unfolding status_of
names_of_some i o [] h a = absurd (ground arith)
names_of_some i o ((j, s) ∷ ss) h a = elim (Bool-cases (j == i)) [
  | inl e ↦ subst (λ x. opt_eq o x ≡ true) ((eq_iff j i).0 e) (a.0 (ground arith))
  | inr e ↦ names_of_some i o ss (ground arith) a.1
]

current_of : (o : Option String) (i : String) → opt_eq o i ≡ true → o ≡ some i
current_of none i h = absurd (ground arith)
current_of (some t) i h = ap some ((eq_iff t i).0 h)

pub Step-IsConsistent : (c d : View) → Step c d → IsConsistent c → IsConsistent d
Step-IsConsistent c d (begins i st _ _ h _ e) v = rw e (record {
  different = rw (names-set_status i active c.stages) v.different;
  single = single-begin i c.stages h;
})
Step-IsConsistent c d (finishes i h e) v = rw e (record {
  different = rw (names-set_status i complete c.stages) v.different;
  single = single-finish i c.stages v.different (
      subst (λ o. All (IsCurrent o) c.stages)
        (current_of c.current i (names_of_some i c.current c.stages h v.single)) v.single);
})
Step-IsConsistent c d (blocks i h e) v = rw e (record {
  different = rw (names-set_status i blocked c.stages) v.different;
  single = single-keep c.current i c.stages v.single;
})

pub Override-IsConsistent : (c d : View) → Override c d → IsConsistent c → IsConsistent d
Override-IsConsistent c d (overrides i st h e) v = rw e (record {
  different = rw (names-force_status i c.stages) v.different;
  single = single-force i c.stages;
})

no_active_left :
    (i : String) (ss : Stages)
    → contains (names ss) i ≡ false
    → All (IsCurrent (some i)) ss
    → count_active ss ≡ 0
no_active_left i [] d h = refl
no_active_left i ((j, s) ∷ ss) d h = ground (arith, no_active_left i ss, eq_iff i j, eq_iff j i)

-- In a consistent pipeline at most one stage is active.
pub count_active-le :
    (o : Option String) (ss : Stages)
    → AllDifferent (names ss)
    → All (IsCurrent o) ss
    → count_active ss ≤ 1
count_active-le o [] d h = omega arith
count_active-le o ((j, s) ∷ ss) d h = elim (Bool-cases (is_active s)) [
  | inl e ↦
      let g : count_active ss ≡ 0 =
        no_active_left j ss d.0 (subst (λ x. All (IsCurrent x) ss) (current_of o j (h.0 e)) h.1) in
      ground arith
  | inr e ↦ ground (arith, count_active-le o ss d.1 h.1)
]

module _ (host : Host) where
  run_calls-IsConsistent :
      (cs : List Call) (w : World host)
      → Holds host IsConsistent w
      → Holds host IsConsistent (run_calls host cs w)
  unfolding run_calls
  run_calls-IsConsistent [] w h = h
  run_calls-IsConsistent (c ∷ cs) w h =
      run_calls-IsConsistent cs (after (call host c w))
        (call-keeps host IsConsistent Step-IsConsistent Override-IsConsistent c w h)

  -- If the state file names every stage once and its active stages are the current stage, then so it
  -- is after any sequence of starts, completions, advances and overrides, failed ones included, in
  -- any environment of hooks, gates and write errors; and then at most one stage is active.
  pub at_most_one_active :
      (cs : List Call) (w : World host)
      → IfState host IsConsistent w.state_file
      → IfState host
          (λ c. IsConsistent c × (count_active c.stages ≤ 1))
          (run_calls host cs w).state_file
  at_most_one_active cs w h =
      Holds-if host (λ c. IsConsistent c × (count_active c.stages ≤ 1)) (run_calls host cs w)
        (λ s e.
          let v : IsConsistent (view s) =
            run_calls-IsConsistent cs w (if-Holds host IsConsistent w h) s e in
          (v, count_active-le s.current_stage_id (view s).stages v.different v.single))
