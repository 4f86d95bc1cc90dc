-- ===== src/ActiveCall/Examples.antt =====
-- Instances of the theorems on active calls.
use agentops_go.Prelude.{ℕ, ◌≡◌, refl, false, none, some, if◌then◌else◌, ◌==◌}
use agentops_go.Contracts.Execution.{
  CheckpointNextAction, ExecutionCancellationCause, cancellation_cause_valid,
}
use agentops_go.ActiveCall.{
  Registry, Key, Entry, Metadata, Cause, CallState, Prepared, new_registry, prepare, unregister,
  cancel_all, state, lookup, key_eq, validate, cancel_context,
}
use agentops_go.ActiveCall.Invariant.{Inv, Step, Reach, Reach-Inv, new_registry-Inv}
use agentops_go.ActiveCall.Handles.{state-prepare, state-unregister}
use agentops_go.ActiveCall.Cancellation.{registers, cancel_all_reaches, cause, cause-Step}

abbrev call_key : Key
call_key = record { task_id = "t1"; execution_version = 2; worker_id = "w1" }

abbrev plan_call : Metadata
plan_call = record {
  action_kind = CheckpointNextAction.generate_plan;
  step_id = "";
  tool_execution_id = "";
}

-- One prepared call, behind handle 0.
one_call : Registry
one_call = (prepare new_registry (some none) call_key plan_call).0

one_call-Reach : Reach one_call
unfolding one_call
one_call-Reach = Reach.next Reach.initial (Step.prepares (some none) call_key plan_call)

Reach-Inv_example : Inv one_call
Reach-Inv_example = Reach-Inv one_call-Reach

state-prepare_example :
    let (s, h) = prepare new_registry (some none) call_key plan_call in
    (h ≡ Prepared.handle new_registry.next)
    × (state s call_key ≡ (
        if key_eq call_key call_key then some CallState.prepared else state new_registry call_key))
unfolding prepare new_registry lookup validate
state-prepare_example =
    state-prepare new_registry none call_key call_key plan_call new_registry-Inv refl refl

state-unregister_example :
    state (unregister one_call (some 0)) call_key
    ≡ (if 0 == 0 then none else state one_call call_key)
unfolding one_call prepare new_registry lookup validate key_eq
state-unregister_example = state-unregister one_call 0 0 call_key Reach-Inv_example refl

abbrev the_entry : Entry
the_entry = record {
  key = call_key;
  metadata = plan_call;
  state = CallState.prepared;
  ctx = none;
  released = false;
}

cancel_all_reaches_example :
    let r = (cancel_all one_call ExecutionCancellationCause.lock_lost).0 in
    (r.heap 0
      ≡ some (record the_entry {
        ctx = cancel_context none (Cause.frozen ExecutionCancellationCause.lock_lost);
      }))
    × ((q : ℕ) → registers one_call.entries q ≡ false → r.heap q ≡ one_call.heap q)
unfolding one_call prepare new_registry lookup validate key_eq cancellation_cause_valid
cancel_all_reaches_example =
    cancel_all_reaches one_call ExecutionCancellationCause.lock_lost call_key 0 the_entry refl refl
      refl

released : Registry
released = unregister one_call (some 0)

released-Reach : Reach released
unfolding released
released-Reach = Reach.next one_call-Reach (Step.unregisters (some 0))

cause-Step_example :
    cause ((cancel_all released ExecutionCancellationCause.lock_lost).0.heap 0)
    ≡ some Cause.canceled
unfolding released one_call unregister prepare new_registry lookup validate key_eq
cause-Step_example =
    cause-Step 0 Cause.canceled released-Reach
      (Step.cancels_all ExecutionCancellationCause.lock_lost) refl
