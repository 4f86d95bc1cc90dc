-- ===== src/Lifecycle/Diagram.antt =====
-- The transition diagrams of internal/lifecycle/policy.go as relations, and what holds of every walk
-- that the policy allows.
use agentops_go.Prelude.{true, false, ◌≡◌, subst, sym, refl, ◌↔◌, arith}
use agentops_go.Contracts.Status.{
  TaskStatus, ExecutionStatus, task_status_valid, task_status_terminal, execution_status_ended,
}
use agentops_go.Lifecycle.{can_task_transition, can_execution_transition}

pub data TaskEdge : TaskStatus → TaskStatus → Type 0 where
  start : TaskEdge TaskStatus.pending TaskStatus.running
  suspend : TaskEdge TaskStatus.pending TaskStatus.interrupted
  ask : TaskEdge TaskStatus.running TaskStatus.waiting_approval
  interrupt : TaskEdge TaskStatus.running TaskStatus.interrupted
  finish : TaskEdge TaskStatus.running TaskStatus.completed
  resume : TaskEdge TaskStatus.waiting_approval TaskStatus.running
  requeue : TaskEdge TaskStatus.interrupted TaskStatus.pending
  recover : TaskEdge TaskStatus.interrupted TaskStatus.running
  pending_fail : TaskEdge TaskStatus.pending TaskStatus.failed
  running_fail : TaskEdge TaskStatus.running TaskStatus.failed
  waiting_fail : TaskEdge TaskStatus.waiting_approval TaskStatus.failed
  interrupted_fail : TaskEdge TaskStatus.interrupted TaskStatus.failed
  pending_cancel : TaskEdge TaskStatus.pending TaskStatus.cancelled
  running_cancel : TaskEdge TaskStatus.running TaskStatus.cancelled
  waiting_cancel : TaskEdge TaskStatus.waiting_approval TaskStatus.cancelled
  interrupted_cancel : TaskEdge TaskStatus.interrupted TaskStatus.cancelled

pub data ExecutionEdge : ExecutionStatus → ExecutionStatus → Type 0 where
  claim : ExecutionEdge ExecutionStatus.queued ExecutionStatus.running
  drop : ExecutionEdge ExecutionStatus.queued ExecutionStatus.interrupted
  queued_fail : ExecutionEdge ExecutionStatus.queued ExecutionStatus.failed
  ask : ExecutionEdge ExecutionStatus.running ExecutionStatus.waiting_approval
  finish : ExecutionEdge ExecutionStatus.running ExecutionStatus.completed
  running_fail : ExecutionEdge ExecutionStatus.running ExecutionStatus.failed
  interrupt : ExecutionEdge ExecutionStatus.running ExecutionStatus.interrupted
  approve : ExecutionEdge ExecutionStatus.waiting_approval ExecutionStatus.queued
  waiting_fail : ExecutionEdge ExecutionStatus.waiting_approval ExecutionStatus.failed
  interrupted_fail : ExecutionEdge ExecutionStatus.interrupted ExecutionStatus.failed

ruleset task_edges = (
  TaskEdge.start, TaskEdge.suspend, TaskEdge.ask, TaskEdge.interrupt, TaskEdge.finish,
  TaskEdge.resume, TaskEdge.requeue, TaskEdge.recover, TaskEdge.pending_fail, TaskEdge.running_fail,
  TaskEdge.waiting_fail, TaskEdge.interrupted_fail, TaskEdge.pending_cancel,
  TaskEdge.running_cancel, TaskEdge.waiting_cancel, TaskEdge.interrupted_cancel,
)

ruleset execution_edges = (
  ExecutionEdge.claim, ExecutionEdge.drop, ExecutionEdge.queued_fail, ExecutionEdge.ask,
  ExecutionEdge.finish, ExecutionEdge.running_fail, ExecutionEdge.interrupt, ExecutionEdge.approve,
  ExecutionEdge.waiting_fail, ExecutionEdge.interrupted_fail,
)

TaskEdge-of_allowed : (s t : TaskStatus) → (can_task_transition s t).allowed ≡ true → TaskEdge s t
unfolding can_task_transition
TaskEdge-of_allowed s t h = grind (arith, task_edges)

allowed_of_TaskEdge : {s t : TaskStatus} → TaskEdge s t → (can_task_transition s t).allowed ≡ true
unfolding can_task_transition
allowed_of_TaskEdge TaskEdge.start = refl
allowed_of_TaskEdge _ = refl

-- The policy allows a Task transition exactly when it is an edge of the diagram.
pub can_task_transition_iff :
    (s t : TaskStatus) → ((can_task_transition s t).allowed ≡ true) ↔ TaskEdge s t
can_task_transition_iff s t = (TaskEdge-of_allowed s t, allowed_of_TaskEdge)

ExecutionEdge-of_allowed :
    (s t : ExecutionStatus) → (can_execution_transition s t).allowed ≡ true → ExecutionEdge s t
unfolding can_execution_transition
ExecutionEdge-of_allowed s t h = grind (arith, execution_edges)

allowed_of_ExecutionEdge :
    {s t : ExecutionStatus} → ExecutionEdge s t → (can_execution_transition s t).allowed ≡ true
unfolding can_execution_transition
allowed_of_ExecutionEdge ExecutionEdge.claim = refl
allowed_of_ExecutionEdge _ = refl

-- The policy allows a transition of a TaskExecution exactly when it is an edge of the diagram.
pub can_execution_transition_iff :
    (s t : ExecutionStatus) → ((can_execution_transition s t).allowed ≡ true) ↔ ExecutionEdge s t
can_execution_transition_iff s t = (ExecutionEdge-of_allowed s t, allowed_of_ExecutionEdge)

-- A history of a Task that the policy allows.
pub data TaskWalk (s : TaskStatus) : TaskStatus → Type 0 where
  here : TaskWalk s s
  next : {t u : TaskStatus} → TaskWalk s t → (can_task_transition t u).allowed ≡ true → TaskWalk s u

task_terminal_stuck :
    (s t : TaskStatus)
    → task_status_terminal s ≡ true
    → (can_task_transition s t).allowed ≡ true
    → ⊥
unfolding can_task_transition task_status_terminal
task_terminal_stuck s t h k = ground arith

-- A Task that has reached a business terminal state keeps it through every allowed history.
pub TaskWalk-terminal : {s t : TaskStatus} → task_status_terminal s ≡ true → TaskWalk s t → t ≡ s
TaskWalk-terminal h TaskWalk.here = refl
TaskWalk-terminal {s} h (TaskWalk.next {t} {u} w k) = absurd (
    task_terminal_stuck t u
      (subst (λ x. task_status_terminal x ≡ true) (sym (TaskWalk-terminal h w)) h) k)

walk_to_running :
    (s : TaskStatus)
    → task_status_valid s ≡ true
    → task_status_terminal s ≡ false
    → TaskWalk s TaskStatus.running
unfolding can_task_transition task_status_terminal task_status_valid
walk_to_running TaskStatus.pending v h = TaskWalk.next TaskWalk.here refl
walk_to_running TaskStatus.running v h = TaskWalk.here
walk_to_running TaskStatus.waiting_approval v h = TaskWalk.next TaskWalk.here refl
walk_to_running TaskStatus.interrupted v h = TaskWalk.next TaskWalk.here refl
walk_to_running _ v h = absurd (ground arith)

running_to_terminal :
    (t : TaskStatus)
    → task_status_terminal t ≡ true
    → (can_task_transition TaskStatus.running t).allowed ≡ true
unfolding can_task_transition task_status_terminal
running_to_terminal t k = ground arith

-- Every valid Task state that is not terminal has an allowed history to each terminal state.
pub TaskWalk-live :
    (s t : TaskStatus)
    → task_status_valid s ≡ true
    → task_status_terminal s ≡ false
    → task_status_terminal t ≡ true
    → TaskWalk s t
TaskWalk-live s t v h k = TaskWalk.next (walk_to_running s v h) (running_to_terminal t k)

-- A history of a TaskExecution that the policy allows.
pub data ExecutionWalk (s : ExecutionStatus) : ExecutionStatus → Type 0 where
  here : ExecutionWalk s s
  next :
      {t u : ExecutionStatus}
      → ExecutionWalk s t
      → (can_execution_transition t u).allowed ≡ true
      → ExecutionWalk s u

ended_step :
    (s t : ExecutionStatus)
    → execution_status_ended s ≡ true
    → (can_execution_transition s t).allowed ≡ true
    → execution_status_ended t ≡ true
unfolding can_execution_transition execution_status_ended
ended_step s t h k = ground arith

-- A TaskExecution that has ended stays ended through every allowed history: it is never claimed,
-- queued or run again.
pub ExecutionWalk-ended :
    {s t : ExecutionStatus}
    → execution_status_ended s ≡ true
    → ExecutionWalk s t
    → execution_status_ended t ≡ true
ExecutionWalk-ended h ExecutionWalk.here = h
ExecutionWalk-ended h (ExecutionWalk.next {t} {u} w k) = ended_step t u (ExecutionWalk-ended h w) k
