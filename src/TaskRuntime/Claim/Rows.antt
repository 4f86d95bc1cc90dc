-- ===== src/TaskRuntime/Claim/Rows.antt =====
-- The rows of one task in the tables that a claim leaves behind, and those of the other tasks.
use agentops_go.Prelude.{
  ℕ, String, List, Bool, true, false, Option, none, some, ◌≡◌, refl, arith, text_eq,
}
use agentops_go.TaskRuntime.Entity.{
  TaskUpdate, RunUpdate, TaskExecutionUpdate, Task, Run, TaskExecution,
}
use agentops_go.TaskRuntime.Store.Transaction.{Tables, PortWrite}
use agentops_go.TaskRuntime.Claim.{ClaimFacts}
use agentops_go.TaskRuntime.Claim.Effects.{with_task, with_run, with_execution}
use agentops_go.TaskRuntime.Store.Updates.{text_eq_refl}
use agentops_go.TaskRuntime.Store.{set_task, set_run, set_execution, coalesce}
use agentops_go.TaskRuntime.Claim.Writes.{started_task}
use agentops_go.TaskRuntime.Claim.Settlements.{claimed_execution, claimed_run, claimed_tables}

-- The three rows of a task.
pub record Rows (s : Tables) (t : Task) (r : Run) (e : TaskExecution) : Type 0 where
  pub task_row : s.task t.task_id ≡ some t
  pub run_row : s.run t.task_id ≡ some r
  pub execution_row : s.execution t.task_id e.execution_version ≡ some e

-- The rows of every other task stand as before.
pub record OthersKept (s s' : Tables) (id : String) : Type 0 where
  pub task_kept : (other : String) → text_eq id other ≡ false → s'.task other ≡ s.task other
  pub run_kept : (other : String) → text_eq id other ≡ false → s'.run other ≡ s.run other
  pub execution_kept :
      (other : String) (version : ℕ)
      → text_eq id other ≡ false
      → s'.execution other version ≡ s.execution other version

pub set_task_at : (g : String → Option Task) (k : String) (v : Task) → set_task g k v k ≡ some v
set_task_at g k v = rw (text_eq_refl k)

pub set_run_at : (g : String → Option Run) (k : String) (v : Run) → set_run g k v k ≡ some v
set_run_at g k v = rw (text_eq_refl k)

pub set_execution_at :
    (g : String → ℕ → Option TaskExecution) (k : String) (n : ℕ) (v : TaskExecution)
    → set_execution g k n v k n ≡ some v
set_execution_at g k n v = ground (arith, text_eq_refl k)

pub coalesce-none : (o : Option String) → coalesce o none ≡ o
coalesce-none none = refl
coalesce-none (some a) = refl

set_task_other :
    (g : String → Option Task) (k other : String) (v : Task)
    → text_eq k other ≡ false
    → set_task g k v other ≡ g other
set_task_other g k other v h = rw h

set_run_other :
    (g : String → Option Run) (k other : String) (v : Run)
    → text_eq k other ≡ false
    → set_run g k v other ≡ g other
set_run_other g k other v h = rw h

set_execution_other :
    (g : String → ℕ → Option TaskExecution) (k other : String) (n m : ℕ) (v : TaskExecution)
    → text_eq k other ≡ false
    → set_execution g k n v other m ≡ g other m
set_execution_other g k other n m v h = rw h

-- What other modules were asked for is no row.
pub Rows-ports :
    (s : Tables) (t : Task) (r : Run) (e : TaskExecution) (cs : List PortWrite)
    (rs : List (String × String × ℕ))
    → Rows s t r e
    → Rows (record s { checkpoints = cs; reports = rs }) t r e
Rows-ports s t r e cs rs h = record {
  task_row = h.task_row;
  run_row = h.run_row;
  execution_row = h.execution_row;
}

pub OthersKept-ports :
    (s s' : Tables) (id : String) (cs : List PortWrite) (rs : List (String × String × ℕ))
    → OthersKept s s' id
    → OthersKept s (record s' { checkpoints = cs; reports = rs }) id
OthersKept-ports s s' id cs rs h = record {
  task_kept = h.task_kept;
  run_kept = h.run_kept;
  execution_kept = h.execution_kept;
}

pub with_all-OthersKept :
    (s : Tables) (f : ClaimFacts) (e : TaskExecutionUpdate) (r : RunUpdate) (t : TaskUpdate)
    → OthersKept s (with_task (with_run (with_execution s f e) f r) f t) f.task.task_id
with_all-OthersKept s f e r t = record {
  task_kept = λ other h. set_task_other s.task f.task.task_id other _ h;
  run_kept = λ other h. set_run_other s.run f.task.task_id other _ h;
  execution_kept = λ other version h.
      set_execution_other s.execution f.task.task_id other f.execution.execution_version version _
        h;
}

pub with_two-OthersKept :
    (s : Tables) (f : ClaimFacts) (e : TaskExecutionUpdate) (t : TaskUpdate)
    → OthersKept s (with_task (with_execution s f e) f t) f.task.task_id
with_two-OthersKept s f e t = record {
  task_kept = λ other h. set_task_other s.task f.task.task_id other _ h;
  run_kept = λ _ _. refl;
  execution_kept = λ other version h.
      set_execution_other s.execution f.task.task_id other f.execution.execution_version version _
        h;
}

pub claimed_tables-OthersKept :
    (s : Tables) (f : ClaimFacts) (now : ℕ) (worker : String) (pending : Bool)
    → OthersKept s (claimed_tables s f now worker pending) f.task.task_id
claimed_tables-OthersKept s f now worker true =
    with_all-OthersKept s f (claimed_execution f now worker) (claimed_run f now)
      (started_task f now true)
claimed_tables-OthersKept s f now worker false =
    with_two-OthersKept s f (claimed_execution f now worker) (started_task f now false)
