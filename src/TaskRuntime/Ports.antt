-- ===== src/TaskRuntime/Ports.antt =====
-- The outbound ports of the Task Runtime: internal/taskruntime/checkpoint_port.go and
-- internal/contracts/report.go. Their implementations are parameters: what a port answers and whether
-- it accepts a request. A request that was accepted is recorded in the tables, so that it is rolled
-- back with the transaction.
use agentops_go.Prelude.{ℕ, String, Bool, Option, ◌∷◌}
use agentops_go.Contracts.Codes.{ReasonCode}
use agentops_go.Contracts.Execution.{CheckpointNextAction}
use agentops_go.TaskRuntime.Store.Transaction.{
  Tx, TxError, Result, ok, err, fail, Tables, PortWrite,
}

pub data ClaimCheckpointSource : Type 0 where
  initial continuation : ClaimCheckpointSource

-- `ApprovalContext` of internal/contracts/checkpoint.go; JSON is its text.
pub record ApprovalContext : Type 0 where
  pub approval_id : String
  pub approval_execution_version : ℕ
  pub tool_name : String
  pub frozen_tool_input : String
  pub observed_values : String
  pub resource_version : String
  pub frozen_input_hash : String

-- The resolved references are not read by the modelled code.
pub record RuntimeCheckpoint : Type 0 where
  pub checkpoint_id : String
  pub task_id : String
  pub run_id : String
  pub execution_version : ℕ
  pub execution_config_hash : String
  pub next_action : CheckpointNextAction
  pub checkpoint_sequence : ℕ
  pub approval_context : Option ApprovalContext
  pub source_execution_version : Option ℕ
  pub source_checkpoint_id : Option String

-- `foreign` is a value of no declared variant.
pub data ClaimCheckpointResult : Type 0 where
  valid : RuntimeCheckpoint → ClaimCheckpointResult
  invalid : ReasonCode → ClaimCheckpointResult
  foreign : ClaimCheckpointResult

pub data EnsurePendingReportResult : Type 0 where
  created existing foreign : EnsurePendingReportResult

-- The part of the configuration of an agent that a claim reads; `config` stands for all that is hashed.
pub record AgentRuntimeConfig : Type 0 where
  pub agent_id : String
  pub enabled : Bool
  pub config : String

pub record Ports : Type 0 where
  pub id_before : String → String → Bool
  pub now : Result ℕ
  pub lookup_agent : String → Option AgentRuntimeConfig
  pub hash_execution_config : AgentRuntimeConfig → Result String
  pub load_latest_for_claim :
      String → String → ℕ → ClaimCheckpointSource → Result ClaimCheckpointResult
  pub save_generate_plan : PortWrite → Result (Unit {0})
  pub ensure_pending : String × String × ℕ → Result EnsurePendingReportResult

-- An answer of a port that reads.
abbrev pub ask : {A : Type 0} → Result A → Tx Tables A
ask (ok a) s = ok (a, s)
ask (err e) s = err e

unfoldable pub save_generate_plan_checkpoint : Ports → PortWrite → Tx Tables (Unit {0})
save_generate_plan_checkpoint p w s = elim (p.save_generate_plan w) [
  | err e ↦ err e
  | ok _ ↦ ok (tt, record s { checkpoints = w ∷ s.checkpoints })
]

unfoldable pub reported : EnsurePendingReportResult → String × String × ℕ → Tx Tables (Unit {0})
reported EnsurePendingReportResult.created w s = ok (tt, record s { reports = w ∷ s.reports })
reported EnsurePendingReportResult.existing w s = ok (tt, record s { reports = w ∷ s.reports })
reported EnsurePendingReportResult.foreign w s = fail TxError.persistence_invariant_violation s

-- `ensurePendingReport`.
unfoldable pub ensure_pending_report : Ports → String → String → ℕ → Tx Tables (Unit {0})
unfolding reported
ensure_pending_report p task run now s = elim (p.ensure_pending (task, run, now)) [
  | err e ↦ err e
  | ok a ↦ reported a (task, run, now) s
]
