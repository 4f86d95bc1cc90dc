-- ===== src/TaskRuntime/Store/Transaction.antt =====
-- The tables and the transactions on them: internal/contracts/transaction.go and the executor of
-- internal/adapter/postgres/runtime/write.go.
use agentops_go.Prelude.{ℕ, String, Option, List}
use agentops_go.Lifecycle.{RejectionReason}
use agentops_go.TaskRuntime.Entity.{Task, Run, TaskExecution}

-- What another module was asked to write inside the transaction, in the order of the requests: the
-- checkpoints saved and the pending reports ensured.
pub record PortWrite : Type 0 where
  pub task_id : String
  pub run_id : String
  pub execution_version : ℕ
  pub execution_config_hash : String

pub record Tables : Type 0 where
  pub task : String → Option Task
  pub run : String → Option Run
  pub execution : String → ℕ → Option TaskExecution
  pub task_ids : List String
  pub checkpoints : List PortWrite
  pub reports : List (String × String × ℕ)

-- `lifecycle` is an error with the policy's reason in its text only; `port` is an error of another
-- module or of the configuration.
pub data TxError : Type 0 where
  not_found persistence_invariant_violation condition_miss invalid_argument : TxError
  config_unavailable : TxError
  command_conflict unique_violation task_already_terminal task_timed_out : TxError
  recover_state_conflict recover_config_mismatch recover_checkpoint_invalid : TxError
  lifecycle : RejectionReason → TxError
  port : ℕ → TxError

pub data Result {ℓ} (A : Type ℓ) : Type ℓ where
  ok : A → Result A
  err : TxError → Result A

abbrev pub Tx : Type 0 → Type 0 → Type 0
Tx S A = S → Result (A × S)

abbrev pub pure : {S A : Type 0} → A → Tx S A
pure a s = ok (a, s)

abbrev pub fail : {S A : Type 0} → TxError → Tx S A
fail e s = err e

-- The rest of a block, on the result of its first statement.
abbrev pub after : {S A B : Type 0} → Result (A × S) → (A → Tx S B) → Result (B × S)
after (ok (a, s)) f = f a s
after (err e) f = err e

infixl 5 ◌>>=◌ ◌>>◌
abbrev pub ◌>>=◌ : {S A B : Type 0} → Tx S A → (A → Tx S B) → Tx S B
◌>>=◌ m f s = after (m s) f

abbrev pub ◌>>◌ : {S A B : Type 0} → Tx S A → Tx S B → Tx S B
m >> k = m >>= λ _. k

-- `Execute`: the work commits, or its error rolls everything back.
unfoldable pub execute : {S A : Type 0} → Tx S A → S → Result A × S
execute work s = elim (work s) [ ok (a, s') ↦ (ok a, s') | err e ↦ (err e, s) ]
