-- ===== src/TaskRuntime/Recover/Service.antt =====
-- internal/taskruntime/recover.go: the transaction of `RecoverTask`.
use agentops_go.Prelude.{
  ℕ, suc, String, Bool, true, false, not, ◌&&◌, ◌||◌, Option, none, some, ltb, if◌then◌else◌,
  text_eq,
}
use agentops_go.Contracts.Status.{task_status_terminal}
use agentops_go.Contracts.Codes.{ErrorCode, ReasonCode, valid_for_checkpoint_invalid}
use agentops_go.Contracts.Execution.{next_action_valid}
use agentops_go.Contracts.Hash.{hash_valid}
use agentops_go.TaskRuntime.Store.Transaction.{
  Tx, TxError, Result, ok, err, pure, fail, ◌>>=◌, ◌>>◌, execute,
}
use agentops_go.TaskRuntime.Ports.{AgentRuntimeConfig}
use agentops_go.TaskRuntime.Termination.{TerminationFacts}
use agentops_go.TaskRuntime.Termination.Receipt.{CommandReceipt, CommandType}
use agentops_go.TaskRuntime.Termination.Cancel.{answered, on_rest}
use agentops_go.TaskRuntime.Recover.{
  RecoverTaskRequest, TaskRecovered, RecoverReceiptResponse, RecoverError, RecoverySourcePhase,
  RecoveryCheckpointValid, RecoveryCheckpointResult, RecoverPorts, recovery_phase, recover_rejected,
  recover_config_mismatch, recover_succeeded, recover_receipt_valid, recover_result,
}
use agentops_go.TaskRuntime.Recover.Failure.{
  Commands, lock_recovery_facts, keep_recover_receipt, terminalize_failure,
}
use agentops_go.TaskRuntime.Recover.Version.{
  is_generate_plan, requeue, start_recovery, target_run, target_task,
}

unfoldable pub recover_version :
    RecoverPorts
    → RecoverTaskRequest
    → TerminationFacts
    → ℕ
    → RecoveryCheckpointValid
    → String
    → String
    → Tx Commands RecoverReceiptResponse
recover_version p q f now k source hash = do
  id ← answered p.new_id
  requeue f k.next_action id hash now
  checkpoint ← start_recovery p f source hash
  keep_recover_receipt p q now (
      recover_succeeded f (suc f.execution.execution_version) (target_task k.next_action)
        (target_run k.next_action) now checkpoint)

unfoldable pub recovery_hash :
    Option AgentRuntimeConfig → (AgentRuntimeConfig → Result String) → Result String
recovery_hash none hash = err TxError.config_unavailable
recovery_hash (some a) hash = if a.enabled then hash a else err TxError.config_unavailable

-- The three hashes agree, or the command has failed for good.
unfoldable pub recover_hashes :
    RecoverPorts
    → RecoverTaskRequest
    → TerminationFacts
    → ℕ
    → RecoveryCheckpointValid
    → String
    → String
    → Tx Commands RecoverReceiptResponse
recover_hashes p q f now k source hash =
    if not (text_eq hash f.execution.execution_config_hash)
      || not (text_eq hash k.execution_config_hash)
    then keep_recover_receipt p q now (recover_config_mismatch f k hash)
    else recover_version p q f now k source hash

unfoldable pub recover_source :
    RecoverPorts
    → RecoverTaskRequest
    → TerminationFacts
    → ℕ
    → RecoveryCheckpointValid
    → String
    → Tx Commands RecoverReceiptResponse
recover_source p q f now k source = do
  hash ← answered (recovery_hash (p.lookup_agent f.task.agent_id) p.hash_execution_config)
  recover_hashes p q f now k source hash

-- A valid checkpoint has its parts, and its action is one that this phase of the program recovers.
unfoldable pub recover_valid :
    RecoverPorts
    → RecoverTaskRequest
    → TerminationFacts
    → ℕ
    → RecoveryCheckpointValid
    → Option String
    → Tx Commands RecoverReceiptResponse
recover_valid p q f now k none = fail TxError.persistence_invariant_violation
recover_valid p q f now k (some source) =
    if text_eq k.checkpoint_id ""
      || not (hash_valid k.execution_config_hash)
      || not (next_action_valid k.next_action)
      || not (is_generate_plan k.next_action)
    then fail TxError.persistence_invariant_violation
    else recover_source p q f now k source

unfoldable pub recover_checked :
    RecoverPorts
    → RecoverTaskRequest
    → TerminationFacts
    → ℕ
    → RecoveryCheckpointResult
    → Tx Commands RecoverReceiptResponse
unfolding recover_valid
recover_checked p q f now (RecoveryCheckpointResult.valid k) = recover_valid p q f now k k.source
recover_checked p q f now (RecoveryCheckpointResult.invalid reason) =
    if valid_for_checkpoint_invalid reason
    then terminalize_failure p q f now ErrorCode.checkpoint_invalid reason
        RecoverError.checkpoint_invalid
    else fail TxError.persistence_invariant_violation
recover_checked p q f now _ = fail TxError.persistence_invariant_violation

abbrev pub conflict : TerminationFacts → RecoverReceiptResponse
conflict f = recover_rejected f RecoverError.state_conflict (ReasonCode.unknown "")

unfoldable pub recover_in_time :
    RecoverPorts
    → RecoverTaskRequest
    → TerminationFacts
    → ℕ
    → Option RecoverySourcePhase
    → Tx Commands RecoverReceiptResponse
recover_in_time p q f now none = keep_recover_receipt p q now (conflict f)
recover_in_time p q f now (some phase) = do
  result ←
      answered
        (p.validate_recovery_source f.task.task_id f.run.run_id f.execution.execution_version phase)
  recover_checked p q f now result

-- A terminal state comes before the deadline.
unfoldable pub recover_facts :
    RecoverPorts → RecoverTaskRequest → TerminationFacts → ℕ → Tx Commands RecoverReceiptResponse
recover_facts p q f now =
    if task_status_terminal f.task.status
    then keep_recover_receipt p q now (conflict f)
    else if not (ltb now f.task.deadline_at)
    then terminalize_failure p q f now ErrorCode.task_timeout (ReasonCode.unknown "")
        RecoverError.timed_out
    else recover_in_time p q f now (recovery_phase f)

unfoldable pub recover_anew : RecoverPorts → RecoverTaskRequest → Tx Commands RecoverReceiptResponse
recover_anew p q = do
  f ← on_rest (lock_recovery_facts q.task_id)
  now ← answered p.now
  recover_facts p q f now

abbrev pub is_recover : CommandType → Bool
is_recover CommandType.recover = true
is_recover _ = false

unfoldable pub recover_decoded : Option RecoverReceiptResponse → Tx Commands RecoverReceiptResponse
recover_decoded none = fail TxError.persistence_invariant_violation
recover_decoded (some r) =
    if recover_receipt_valid r then pure r else fail TxError.persistence_invariant_violation

unfoldable pub recover_replay :
    RecoverPorts → RecoverTaskRequest → CommandReceipt → Tx Commands RecoverReceiptResponse
unfolding recover_decoded
recover_replay p q k =
    if is_recover k.command_type
      && text_eq k.target_id q.task_id
      && text_eq k.request_fingerprint (p.fingerprint q.task_id q.operator_id)
    then recover_decoded (p.decode k.response)
    else fail TxError.command_conflict

unfoldable pub recover_work : RecoverPorts → RecoverTaskRequest → Tx Commands RecoverReceiptResponse
recover_work p q s = elim (s.receipts q.command_id) [
  | some k ↦ recover_replay p q k s
  | none ↦ recover_anew p q s
]

abbrev pub recover_answer :
    Result RecoverReceiptResponse × Commands → Result TaskRecovered × Commands
recover_answer (err e, s) = (err e, s)
recover_answer (ok r, s) = (recover_result r, s)

-- `RecoverTask`.
unfoldable pub recover_task :
    RecoverPorts → RecoverTaskRequest → Commands → Result TaskRecovered × Commands
recover_task p q s =
    if p.given q
    then recover_answer (execute (recover_work p q) s)
    else (err TxError.invalid_argument, s)
