-- ===== src/TaskRuntime/Entity.antt =====
-- internal/taskruntime/entity.go and repository.go: the persistent entities, the updates of them and
-- the queue candidate. A time is a number of nanoseconds, 0 is Go's zero time; a pointer is an option;
-- raw JSON is its text; identifiers are texts.
use agentops_go.Prelude.{ℕ, String, Option}
use agentops_go.Contracts.Status.{TaskStatus, RunStatus, ExecutionStatus}
use agentops_go.Contracts.Codes.{ErrorCode, InvariantCode, TerminationReason}

pub record Task : Type 0 where
  pub task_id : String
  pub agent_id : String
  pub created_by : String
  pub input : String
  pub status : TaskStatus
  pub current_run_id : String
  pub current_execution_version : ℕ
  pub result_summary : Option String
  pub error_code : Option ErrorCode
  pub deadline_at : ℕ
  pub queued_at : Option ℕ
  pub created_at : ℕ
  pub started_at : Option ℕ
  pub ended_at : Option ℕ

pub record Run : Type 0 where
  pub run_id : String
  pub task_id : String
  pub status : RunStatus
  pub plan_id : Option String
  pub current_step_id : Option String
  pub context : String
  pub error_code : Option ErrorCode
  pub started_at : Option ℕ
  pub ended_at : Option ℕ

pub record TaskExecution : Type 0 where
  pub task_execution_id : String
  pub task_id : String
  pub execution_version : ℕ
  pub worker_id : Option String
  pub status : ExecutionStatus
  pub execution_config_hash : String
  pub observed_config_hash : Option String
  pub error_code : Option ErrorCode
  pub invariant_code : Option InvariantCode
  pub termination_reason : Option TerminationReason
  pub created_at : ℕ
  pub started_at : Option ℕ
  pub ended_at : Option ℕ

pub record TaskUpdate : Type 0 where
  pub task_id : String
  pub expected_status : TaskStatus
  pub expected_current_execution_version : ℕ
  pub status : TaskStatus
  pub current_execution_version : ℕ
  pub result_summary : Option String
  pub error_code : Option ErrorCode
  pub queued_at : Option ℕ
  pub started_at : Option ℕ
  pub ended_at : Option ℕ

pub record RunUpdate : Type 0 where
  pub task_id : String
  pub run_id : String
  pub execution_version : ℕ
  pub expected_status : RunStatus
  pub status : RunStatus
  pub plan_id : Option String
  pub current_step_id : Option String
  pub context : String
  pub error_code : Option ErrorCode
  pub started_at : Option ℕ
  pub ended_at : Option ℕ

pub record TaskExecutionUpdate : Type 0 where
  pub task_id : String
  pub execution_version : ℕ
  pub expected_status : ExecutionStatus
  pub expected_worker_id : Option String
  pub status : ExecutionStatus
  pub worker_id : Option String
  pub observed_config_hash : Option String
  pub error_code : Option ErrorCode
  pub invariant_code : Option InvariantCode
  pub termination_reason : Option TerminationReason
  pub started_at : Option ℕ
  pub ended_at : Option ℕ

pub record QueueCandidate : Type 0 where
  pub task_id : String
  pub run_id : String
  pub execution_version : ℕ
  pub task_status : TaskStatus
  pub execution_status : ExecutionStatus
  pub queued_at : ℕ
  pub created_at : ℕ
