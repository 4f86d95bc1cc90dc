-- ===== src/Worker.antt =====
-- internal/worker/worker.go: the single-slot loop of a Worker.
--
-- What the loop meets is a list of rounds, one for each turn: what the Task Runtime port returns,
-- what the process context shows each time the loop reads it, and how the wait on the empty queue
-- ends. The list is as long as the observation; a loop that is still running at its end gives no
-- exit. The result is the exit with the calls that the loop made, in order.
pub mod Trace
pub mod Stops
mod Examples
use agentops_go.Prelude.{
  ℕ, ◌*◌, String, Bool, true, false, not, ◌&&◌, ◌||◌, Option, none, some, List, [], ◌∷◌, ◌++◌, leb,
  ltb, if◌then◌else◌, text_eq, is_none,
}
use agentops_go.Contracts.Execution.{
  ExecutionClaim, ClaimResult, ExecuteResult, execution_version_valid,
}

-- An error of the port: `errors.Is` of `context.Canceled` and of `context.DeadlineExceeded`, and a
-- number that tells the values apart.
pub record PortError : Type 0 where
  pub canceled : Bool
  pub deadline_exceeded : Bool
  pub value : ℕ

-- A result of a port: nil, a closed result, or a value of a foreign type.
pub data Returned {ℓ} (A : Type ℓ) : Type ℓ where
  nil : Returned A
  result : A → Returned A
  foreign : Returned A

pub data StopCause : Type 0 where
  runtime_shutdown lock_lost other_cause : StopCause

-- The process context at one reading: active, or done with a cause.
pub data ContextView : Type 0 where
  live : ContextView
  done : StopCause → ContextView

pub record Round : Type 0 where
  pub claim_result : Returned ClaimResult
  pub claim_error : Option PortError
  pub claim_context : ContextView
  pub execute_result : Returned ExecuteResult
  pub execute_error : Option PortError
  pub execute_context : ContextView
  pub timer_fired : Bool
  pub end_context : ContextView

pub data Exit : Type 0 where
  stopped : Exit
  contract_violation : Exit
  violation_with : PortError → Exit
  failed : PortError → Exit
  already_started context_required : Exit

pub data Call : Type 0 where
  claims : String → Call
  executes : ExecutionClaim → Call
  waits : ℕ → Call

pub record Worker : Type 0 where
  pub worker_id : String
  pub poll_interval : ℕ
  pub started : Bool

-- Five seconds, in nanoseconds.
abbrev pub max_poll_interval : ℕ
max_poll_interval = 5 * 1000000000

-- `new has_runtime id interval`: `none` is the error. A nonpositive duration is 0.
unfoldable pub new : Bool → String → ℕ → Option Worker
new has_runtime worker_id poll_interval =
    if not has_runtime
    then none
    else if text_eq worker_id ""
    then none
    else if leb poll_interval 0 || ltb max_poll_interval poll_interval
    then none
    else some (record { worker_id = worker_id; poll_interval = poll_interval; started = false })

is_live : ContextView → Bool
is_live live = true
is_live (done _) = false

frozen_stop : ContextView → Bool
frozen_stop live = false
frozen_stop (done StopCause.runtime_shutdown) = true
frozen_stop (done StopCause.lock_lost) = true
frozen_stop (done StopCause.other_cause) = false

is_cancellation : PortError → Bool
is_cancellation e = e.canceled || e.deadline_exceeded

unfoldable pub is_normal_stop : ContextView → PortError → Bool
unfolding is_live frozen_stop is_cancellation
is_normal_stop ctx e = if is_live ctx || not (is_cancellation e) then false else frozen_stop ctx

unfoldable pub port_error : ContextView → Bool → PortError → Exit
unfolding is_normal_stop
port_error ctx has_result e =
    if has_result
    then Exit.violation_with e
    else if is_normal_stop ctx e
    then Exit.stopped
    else if is_live ctx && is_cancellation e
    then Exit.violation_with e
    else Exit.failed e

abbrev pub has_value {ℓ} : {A : Type ℓ} → Returned A → Bool
has_value Returned.nil = false
has_value _ = true

unfoldable pub claim_accepted : Worker → ExecutionClaim → Bool
claim_accepted w c = not (
    text_eq c.task_id ""
    || text_eq c.run_id ""
    || not (execution_version_valid c.execution_version)
    || text_eq c.worker_id ""
    || not (text_eq c.worker_id w.worker_id))

known_execute_result : Returned ExecuteResult → Option Exit
known_execute_result Returned.nil = some Exit.contract_violation
known_execute_result (Returned.result _) = none
known_execute_result Returned.foreign = some Exit.contract_violation

-- `portError` inside `execute`: its nil, a normal stop, lets the loop go on to its next check.
continuing : Exit → Option Exit
continuing Exit.stopped = none
continuing x = some x

-- The error of `execute`; `none` is its nil, with which the loop goes on.
executed : Round → Option Exit
unfolding known_execute_result port_error continuing
executed t = elim t.execute_error [
  | some e ↦ continuing (port_error t.execute_context (has_value t.execute_result) e)
  | none ↦ known_execute_result t.execute_result
]

-- One turn: the calls it makes, and the exit if the loop returns. `Run` reads the context at the end
-- of a turn that did not return.
end_of_turn : Round → Option Exit
unfolding is_live
end_of_turn t = if is_live t.end_context then none else some Exit.stopped

or_end : Round → Option Exit → Option Exit
unfolding end_of_turn
or_end t none = end_of_turn t
or_end t (some x) = some x

claimed_turn : Worker → Round → ExecutionClaim → List Call × Option Exit
unfolding claim_accepted executed or_end
claimed_turn w t c =
    if claim_accepted w c
    then (Call.claims w.worker_id ∷ Call.executes c ∷ [], or_end t (executed t))
    else (Call.claims w.worker_id ∷ [], some Exit.contract_violation)

answered : Worker → Round → Returned ClaimResult → List Call × Option Exit
unfolding claimed_turn end_of_turn
answered w t Returned.nil = (Call.claims w.worker_id ∷ [], some Exit.contract_violation)
answered w t Returned.foreign = (Call.claims w.worker_id ∷ [], some Exit.contract_violation)
answered w t (Returned.result (ClaimResult.claimed c)) = claimed_turn w t c
answered w t (Returned.result ClaimResult.no_work) = (
  Call.claims w.worker_id ∷ Call.waits w.poll_interval ∷ [],
  if t.timer_fired then end_of_turn t else some Exit.stopped,
)
answered w t (Returned.result _) = (Call.claims w.worker_id ∷ [], end_of_turn t)

unfoldable pub turn : Worker → Round → List Call × Option Exit
unfolding answered port_error
turn w t = elim t.claim_error [
  | some e ↦
      (Call.claims w.worker_id ∷ [], some (port_error t.claim_context (has_value t.claim_result) e))
  | none ↦ answered w t t.claim_result
]

unfoldable pub loop : Worker → List Round → List Call × Option Exit
loop w [] = ([], none)
loop w (t ∷ ts) =
    let (calls, exit) = turn w t in
    elim exit [ some x ↦ (calls, some x) | none ↦ let (more, x) = loop w ts in (calls ++ more, x) ]

-- `Run`: a nil context is `none`. The Worker after the call is started.
unfoldable pub run : Worker → Option ContextView → List Round → Worker × (List Call × Option Exit)
unfolding is_live
run w none ts = (w, ([], some Exit.context_required))
run w (some ctx) ts =
    if w.started
    then (w, ([], some Exit.already_started))
    else (record w { started = true }, if is_live ctx then loop w ts else ([], some Exit.stopped))
