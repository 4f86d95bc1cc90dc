-- ===== src/Worker/Examples.antt =====
-- Instances of the theorems on the Worker loop.
use agentops_go.Prelude.{◌≡◌, refl, Bool, true, false, none, some, [], ◌∷◌, ◌↔◌, ◌⊎◌, is_none}
use agentops_go.Contracts.Execution.{ExecutionClaim, ClaimResult, ExecuteResult}
use agentops_go.Worker.{
  Worker, Round, Call, Exit, ContextView, StopCause, Returned, PortError, turn, loop, run,
  port_error,
}
use agentops_go.Worker.Trace.{Serial, loop-Serial, run-Serial}
use agentops_go.Worker.Stops.{HostStop, port_error-stopped, loop_done}

abbrev the_worker : Worker
the_worker = record { worker_id = "w1"; poll_interval = 1000; started = false }

abbrev the_claim : ExecutionClaim
the_claim = record {
  task_id = "t1";
  run_id = "r1";
  execution_version = 1;
  worker_id = "w1";
  claimed_at = 50;
}

-- A claim that is executed.
abbrev busy : Round
busy = record {
  claim_result = Returned.result (ClaimResult.claimed the_claim);
  claim_error = none;
  claim_context = ContextView.live;
  execute_result = Returned.result ExecuteResult.terminal;
  execute_error = none;
  execute_context = ContextView.live;
  timer_fired = true;
  end_context = ContextView.live;
}

-- An empty queue.
abbrev idle : Round
idle = record busy { claim_result = Returned.result ClaimResult.no_work }

-- A shutdown that is seen at the end of the turn.
abbrev closing : Round
closing = record busy { end_context = ContextView.done StopCause.runtime_shutdown }

loop-Serial_example : Serial the_worker (loop the_worker (busy ∷ idle ∷ [])).0
loop-Serial_example = loop-Serial the_worker (busy ∷ idle ∷ [])

run-Serial_example :
    Serial the_worker (run the_worker (some ContextView.live) (busy ∷ closing ∷ [])).1.0
run-Serial_example = run-Serial the_worker (some ContextView.live) (busy ∷ closing ∷ [])

abbrev canceled : PortError
canceled = record { canceled = true; deadline_exceeded = false; value = 0 }

port_error-stopped_example :
    (port_error (ContextView.done StopCause.lock_lost) false canceled ≡ Exit.stopped) ↔ (
      (◌≡◌ {A = Bool} false false)
      × ((canceled.canceled ≡ true) ⊎ (canceled.deadline_exceeded ≡ true))
      × HostStop (ContextView.done StopCause.lock_lost))
port_error-stopped_example =
    port_error-stopped (ContextView.done StopCause.lock_lost) false canceled

loop_done_example :
    ((loop the_worker (closing ∷ busy ∷ [])).0 ≡ (turn the_worker closing).0)
    × (is_none (loop the_worker (closing ∷ busy ∷ [])).1 ≡ false)
loop_done_example = loop_done the_worker closing (busy ∷ []) StopCause.runtime_shutdown refl

-- Two turns and a shutdown: the calls in order.
three_turns : run the_worker (some ContextView.live) (busy ∷ idle ∷ closing ∷ busy ∷ []) ≡ (
  record the_worker { started = true },
  (
    Call.claims "w1"
        ∷ Call.executes the_claim
        ∷ Call.claims "w1"
        ∷ Call.waits 1000
        ∷ Call.claims "w1"
        ∷ Call.executes the_claim
        ∷ [],
    some Exit.stopped,
  ),
)
unfolding run loop turn
three_turns = refl
