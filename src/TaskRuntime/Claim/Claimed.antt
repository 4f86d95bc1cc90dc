-- ===== src/TaskRuntime/Claim/Claimed.antt =====
-- What the tables hold when a task is claimed.
use agentops_go.Prelude.{ℕ, String, List, Bool, true, false, none, some, ap, ◌∙◌}
use agentops_go.Contracts.Status.{TaskStatus, RunStatus, ExecutionStatus}
use agentops_go.Contracts.Execution.{ClaimResult}
use agentops_go.TaskRuntime.Entity.{Task, Run, TaskExecution}
use agentops_go.TaskRuntime.Store.Transaction.{Tables, PortWrite}
use agentops_go.TaskRuntime.Claim.{ClaimFacts}
use agentops_go.TaskRuntime.Claim.Effects.{Locked}
use agentops_go.TaskRuntime.Claim.{or_now}
use agentops_go.TaskRuntime.Claim.Settlements.{claimed_tables}
use agentops_go.TaskRuntime.Claim.Rows.{
  Rows, OthersKept, Rows-ports, OthersKept-ports, claimed_tables-OthersKept, set_task_at,
  set_run_at, set_execution_at, coalesce-none,
}

module _ (worker : String) (s : Tables) (f : ClaimFacts) (now : ℕ) where
  -- The rows after the claim of a task that was pending, or that runs already.
  abbrev pub claimed_task_row : Bool → Task
  claimed_task_row true = record f.task {
    status = TaskStatus.running;
    queued_at = none;
    started_at = or_now f.task.started_at now;
  }
  claimed_task_row false = record f.task { queued_at = none }

  abbrev pub claimed_run_row : Bool → Run
  claimed_run_row true = record f.run {
    status = RunStatus.running;
    started_at = or_now f.run.started_at now;
  }
  claimed_run_row false = f.run

  abbrev pub claimed_execution_row : TaskExecution
  claimed_execution_row = record f.execution {
    status = ExecutionStatus.running;
    worker_id = some worker;
    error_code = none;
    invariant_code = none;
    termination_reason = none;
    started_at = or_now f.execution.started_at now;
    ended_at = none;
  }

  pub claimed_tables-Rows :
      (pending : Bool)
      → Locked s f
      → Rows
          (claimed_tables s f now worker pending)
          (claimed_task_row pending)
          (claimed_run_row pending)
          claimed_execution_row
  claimed_tables-Rows true l = record {
    task_row = set_task_at s.task f.task.task_id _;
    run_row = set_run_at s.run f.task.task_id _;
    execution_row =
        set_execution_at s.execution f.task.task_id f.execution.execution_version _
        ∙ ap (λ o. some (record claimed_execution_row { observed_config_hash = o }))
            (coalesce-none f.execution.observed_config_hash);
  }
  claimed_tables-Rows false l = record {
    task_row = set_task_at s.task f.task.task_id _;
    run_row = l.run_at;
    execution_row =
        set_execution_at s.execution f.task.task_id f.execution.execution_version _
        ∙ ap (λ o. some (record claimed_execution_row { observed_config_hash = o }))
            (coalesce-none f.execution.observed_config_hash);
  }

  abbrev pub first_checkpoint : PortWrite
  first_checkpoint = record {
    task_id = f.task.task_id;
    run_id = f.run.run_id;
    execution_version = f.execution.execution_version;
    execution_config_hash = f.execution.execution_config_hash;
  }

  -- What the tables hold when the task of the candidate is claimed.
  pub record ClaimedBy (pending : Bool) (s' : Tables) : Type 0 where
    pub rows : Rows s' (claimed_task_row pending) (claimed_run_row pending) claimed_execution_row
    pub others : OthersKept s s' f.task.task_id

  abbrev pub claim : ClaimResult
  claim = ClaimResult.claimed (record {
    task_id = f.task.task_id;
    run_id = f.run.run_id;
    execution_version = f.execution.execution_version;
    worker_id = worker;
    claimed_at = now;
  })

  pub saved-ClaimedBy :
      (pending : Bool) (cs : List PortWrite)
      → Locked s f
      → ClaimedBy pending (record (claimed_tables s f now worker pending) { checkpoints = cs })
  saved-ClaimedBy pending cs l =
      let s1 = claimed_tables s f now worker pending in
      record {
        rows = Rows-ports s1 _ _ _ cs s1.reports (claimed_tables-Rows pending l);
        others =
            OthersKept-ports s s1 f.task.task_id cs s1.reports
              (claimed_tables-OthersKept s f now worker pending);
      }
