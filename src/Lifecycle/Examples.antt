-- ===== src/Lifecycle/Examples.antt =====
-- Instances of the lifecycle theorems at concrete states.
use agentops_go.Prelude.{true, false, ◌≡◌, refl, ◌↔◌, none}
use agentops_go.Contracts.Status.{
  TaskStatus, RunStatus, StepStatus, ExecutionStatus, ApprovalStatus, task_status_terminal,
  task_status_valid, execution_status_ended,
}
use agentops_go.Lifecycle.{
  ApprovalFacts, check_guard, can_approve, can_enter_waiting_approval, can_task_transition,
  can_execution_transition, guard_facts,
}
use agentops_go.Lifecycle.Diagram.{
  TaskEdge, ExecutionEdge, TaskWalk, ExecutionWalk, can_task_transition_iff,
  can_execution_transition_iff, TaskWalk-terminal, TaskWalk-live, ExecutionWalk-ended,
}
use agentops_go.Lifecycle.Guards.{
  GuardHolds, Waiting, Entering, check_guard_iff, can_approve_iff, can_enter_waiting_approval_iff,
}

can_task_transition_iff_example :
    ((can_task_transition TaskStatus.pending TaskStatus.running).allowed ≡ true)
    ↔ TaskEdge TaskStatus.pending TaskStatus.running
can_task_transition_iff_example = can_task_transition_iff TaskStatus.pending TaskStatus.running

can_execution_transition_iff_example :
    ((can_execution_transition ExecutionStatus.queued ExecutionStatus.running).allowed ≡ true)
    ↔ ExecutionEdge ExecutionStatus.queued ExecutionStatus.running
can_execution_transition_iff_example =
    can_execution_transition_iff ExecutionStatus.queued ExecutionStatus.running

TaskWalk-terminal_example : TaskStatus.failed ≡ TaskStatus.failed
unfolding task_status_terminal
TaskWalk-terminal_example = TaskWalk-terminal {s = TaskStatus.failed} refl TaskWalk.here

completed_walk : TaskWalk TaskStatus.pending TaskStatus.completed
unfolding can_task_transition
completed_walk =
    TaskWalk.next
      (TaskWalk.next {t = TaskStatus.pending} {u = TaskStatus.running} TaskWalk.here refl) refl

TaskWalk-live_example : TaskWalk TaskStatus.interrupted TaskStatus.completed
unfolding task_status_terminal task_status_valid
TaskWalk-live_example = TaskWalk-live TaskStatus.interrupted TaskStatus.completed refl refl refl

interrupted_walk : ExecutionWalk ExecutionStatus.interrupted ExecutionStatus.failed
unfolding can_execution_transition
interrupted_walk = ExecutionWalk.next ExecutionWalk.here refl

ExecutionWalk-ended_example : execution_status_ended ExecutionStatus.failed ≡ true
unfolding execution_status_ended
ExecutionWalk-ended_example =
    ExecutionWalk-ended {s = ExecutionStatus.interrupted} refl interrupted_walk

abbrev waiting_facts : ApprovalFacts
waiting_facts = record {
  task_status = TaskStatus.waiting_approval;
  run_status = RunStatus.waiting_approval;
  step_status = StepStatus.waiting_approval;
  execution_status = ExecutionStatus.waiting_approval;
  approval_status = ApprovalStatus.pending;
  current_execution_version = 2;
  request_execution_version = 2;
  execution_worker_id = none;
  request_worker_id = none;
  deadline_at = 900;
  database_now = 100;
}

check_guard_iff_example :
    ((check_guard (guard_facts waiting_facts)).allowed ≡ true)
    ↔ GuardHolds (guard_facts waiting_facts)
check_guard_iff_example = check_guard_iff (guard_facts waiting_facts)

can_approve_iff_example :
    ((can_approve waiting_facts).allowed ≡ true)
    ↔ (Waiting waiting_facts × GuardHolds (guard_facts waiting_facts))
can_approve_iff_example = can_approve_iff waiting_facts

can_enter_waiting_approval_iff_example :
    ((can_enter_waiting_approval waiting_facts).allowed ≡ true)
    ↔ (Entering waiting_facts × GuardHolds (guard_facts waiting_facts))
can_enter_waiting_approval_iff_example = can_enter_waiting_approval_iff waiting_facts

-- The waiting execution may be approved, and not asked about again.
waiting_facts_approved :
    ((can_approve waiting_facts).allowed ≡ true)
    × ((can_enter_waiting_approval waiting_facts).allowed ≡ false)
unfolding can_approve can_enter_waiting_approval check_guard
waiting_facts_approved = (refl, refl)
