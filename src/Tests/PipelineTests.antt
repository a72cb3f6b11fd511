-- ===== src/Tests/PipelineTests.antt =====
-- The pipeline's theorems at a project of two stages.
use forge_os.Pipeline.State.{PipelineState, active, not_started, index_of, previous}
use forge_os.Base.{some, true, false, List, [], ◌∷◌, ◌≤◌, ◌≡◌, refl, arith, any, ◌&&◌}
use forge_os.Base.Outcome.{returned}
use forge_os.Gates.Coordinator.{applies, raw_check, attempt_gate}
use forge_os.Gates.Coordinator.Verdicts.{is_blocking}
use forge_os.Pipeline.World.{World}
use forge_os.Pipeline.Manager.{start_stage, complete_stage}
use forge_os.Pipeline.Manager.Running.{MustDone, IsWritable, IsCalm, IsSaved}
use forge_os.Pipeline.Manager.Running.Starts.{IsStartable, start_stage-MustDone}
use forge_os.Base.Dict.{Dict}
use forge_os.Pipeline.Manager.Gating.{failing_gate_stops}
use forge_os.Pipeline.Manager.Spec.{view, set_status, Steps}
use forge_os.Pipeline.Manager.Keeping.{IfState}
use forge_os.Pipeline.Manager.Safety.Calls.{
  Call, start_call, complete_call, advance_call, override_call, run_calls,
}
use forge_os.Pipeline.Manager.Safety.Consistency.{IsConsistent, count_active, at_most_one_active}
use forge_os.Pipeline.Manager.Safety.Ordering.{InOrder, run_calls-InOrder, calls_refine}
use forge_os.Tests.Sample.{sample_host, sample_state, sample_gate, sample_stage, sample_world}

abbrev all_calls : List Call
all_calls = start_call "srs" ∷ complete_call "srs" ∷ override_call "srs" "again" ∷ advance_call ∷ []

abbrev forward_calls : List Call
forward_calls = advance_call ∷ advance_call ∷ start_call "srs" ∷ advance_call ∷ []

abbrev open_world : World sample_host
open_world = sample_world (sample_gate "advisory" ∷ [])

sample-IsConsistent : IsConsistent (view sample_state)
sample-IsConsistent = record {
  different = (refl, (refl, tt));
  single = (λ e. absurd (true_not e), (λ e. absurd (true_not e), tt));
}
  where
    true_not : false ≡ true → ⊥
    true_not e = ground (arith, e)

at_most_one_active_example :
    IfState sample_host
      (λ c. IsConsistent c × (count_active c.stages ≤ 1))
      (run_calls sample_host all_calls open_world).state_file
at_most_one_active_example = at_most_one_active sample_host all_calls open_world sample-IsConsistent

run_calls-InOrder_example :
    IfState sample_host
      (λ c. InOrder c.stages)
      (run_calls sample_host forward_calls open_world).state_file
run_calls-InOrder_example =
    run_calls-InOrder sample_host forward_calls (tt, (tt, (tt, (tt, tt)))) open_world (refl, tt)

calls_refine_example :
    IfState sample_host
      (Steps (view sample_state))
      (run_calls sample_host forward_calls open_world).state_file
calls_refine_example =
    calls_refine sample_host forward_calls (tt, (tt, (tt, (tt, tt)))) open_world sample_state refl

abbrev gated_world : World sample_host
gated_world = sample_world (sample_gate "blocking" ∷ [])

unknown_gate_blocks :
    any
      (λ g. applies sample_host "srs" g && is_blocking sample_host g)
      (sample_gate "blocking" ∷ [])
    ≡ true
unfolding applies raw_check attempt_gate
unknown_gate_blocks = refl

failing_gate_stops_example : returned (complete_stage sample_host "srs" gated_world) ≡ false
failing_gate_stops_example =
    failing_gate_stops sample_host "srs" gated_world (sample_gate "blocking" ∷ []) refl
      unknown_gate_blocks

sample-IsWritable : IsWritable sample_host
sample-IsWritable = record { state = refl; markdown = refl }

abbrev ungated_world : PipelineState → World sample_host
ungated_world s = record (sample_world []) { state_file = some s }

ungated-IsCalm : (s : PipelineState) → IsCalm sample_host (ungated_world s)
ungated-IsCalm s = record {
  config = record { name = "demo"; profile = "cli" };
  configured = refl;
  quiet = refl;
  gates = [];
  gated = refl;
  passing = λ stage_id. refl;
  lessons = tt;
}

sample-IsStartable : IsStartable sample_state "srs"
unfolding index_of previous
sample-IsStartable = record {
  index = 0;
  stage = sample_stage "srs" not_started;
  indexed = refl;
  found = refl;
  unfinished = refl;
  idle = refl;
  ready = refl;
}

start_stage-MustDone_example :
    MustDone (start_stage sample_host "srs" (ungated_world sample_state)) (λ t v.
      IsSaved sample_host (ungated_world sample_state) v t
      × (view t ≡ record {
        current = some "srs";
        stages = set_status "srs" active (view sample_state).stages;
      }))
start_stage-MustDone_example =
    start_stage-MustDone sample_host sample-IsWritable (ungated_world sample_state) sample_state
      "srs" (ungated-IsCalm sample_state) refl sample-IsStartable

abbrev started_state : PipelineState
started_state = record sample_state {
  current_stage_id = some "srs";
  stages = sample_stage "srs" active ∷ sample_stage "design" not_started ∷ [];
}
