-- ===== src/Lib.antt =====
-- agentops-go, the execution core of the Task Runtime: which states a task, its run and its executions
-- may go through, how a Worker claims the head of the queue, and how a running call is cancelled.
--
-- The parts and how they interact. A Task owns one Run and a numbered list of TaskExecutions, of which
-- one is current. A queued execution waits in a FIFO queue. The Worker (internal/worker) has one slot:
-- it asks the Task Runtime port for a claim, executes it, and polls again. ClaimNextExecution
-- (internal/taskruntime/claim.go) locks the head of the queue in a write transaction and claims it,
-- terminalizes it or interrupts it; every change of a status is checked by the policy
-- (internal/lifecycle) and written by a conditional update (internal/adapter/postgres/taskruntime).
-- CancelTask and ExpireTask (internal/taskruntime/cancel.go, timeout.go) end a task by one atomic update;
-- the timeout scanner (internal/app) submits candidates to ExpireTask, each in its own transaction.
-- StartupCleanup (internal/taskruntime/startup_cleanup.go) classifies what an earlier process left running
-- before any of this starts, and RecoverTask (internal/taskruntime/recover.go) queues the next version of
-- an interrupted execution. All writes go through one connection that holds an advisory lock, behind a
-- gate (internal/adapter/postgres/runtime).
-- While a claimed execution runs, the active call registry (internal/taskruntime/activecall) holds its
-- cancel function, so that a cancellation, a timeout or a shutdown reaches it.
--
-- Which file models which part:
--   Contracts.Status, Contracts.Codes, Contracts.Execution, Contracts.Hash
--       internal/contracts: status.go, codes.go, execution.go, cancellation.go, values.go
--   Contracts.Decimal           CanonicalDecimalV1 of internal/contracts/values.go: constructor, String,
--                               UnmarshalJSON
--     .Normal, .Digits, .Points, .Texts, .RoundTrip   normal form, printing, parsing
--   Lifecycle                   internal/lifecycle/policy.go: CanTaskTransition, CheckGuard, CanApprove ...
--     .Diagram, .Guards         the diagrams as relations, histories, and what the guards decide
--   ActiveCall                  internal/taskruntime/activecall/registry.go: Prepare, Activate,
--                               Unregister, Cancel, CancelAll, State on a heap of entries
--     .Maps, .Invariant, .Handles, .Cancellation
--   Worker                      internal/worker/worker.go: New, Run, execute, portError
--     .Trace, .Stops            the order of its calls, and when it returns
--   TaskRuntime.Entity          internal/taskruntime/entity.go and repository.go
--   TaskRuntime.Store           internal/adapter/postgres/taskruntime/repository.go: Lock, Update,
--                               LockByTask, LockByTaskVersion, LockNextQueueCandidate
--     .Transaction              executeAcquired of internal/adapter/postgres/runtime/write.go
--     .Updates, .Queue, .Queue.Fifo, .Blocks   when an update meets its row, the order of the
--                               queue against the tables, rules for blocks
--   TaskRuntime.Ports           internal/taskruntime/checkpoint_port.go, internal/contracts/report.go
--   TaskRuntime.Claim           internal/taskruntime/claim.go: the facts and their validation
--     .Writes                   commitClaim, interruptConfigMismatch, terminalizeClaim
--     .Service                  ClaimNextExecution up to the end of its first transaction
--     .Reconcile                reconcileClaimConditionMiss, and ClaimNextExecution as a whole
--     .Effects, .Settlements    what each write does to locked rows, alone and in sequence
--     .Rows, .Claimed           the rows that a claim leaves behind
--     .Commit, .Outcome, .Ended, .Mismatch   from the state of the head of the queue to the result
--     .Grant, .Ungranted, .Granted           from a granted claim back to what must have held
--     .Dequeue, .Progress                    what holds of every success
--   TaskRuntime.Termination     internal/taskruntime/termination_port.go and terminationRequest,
--                               toolReadOnly of internal/taskruntime/cancel.go
--     .Receipt, .Cancel         CancelTask: requests and receipts, the transaction and its signal
--     .Expire                   ExpireTask of internal/taskruntime/timeout.go
--     .Tools, .Deadline         what is asked of a running tool; when a task is expired
--     .Kept, .Replay, .Signal   repeated commands; the cancellation of the call that still runs
--   TaskRuntime.Startup         internal/taskruntime/startup_cleanup.go: facts, tool capability
--     .Scene                    validateStartupScene, and the approval contexts of execute.go
--     .Request, .Service        the requests; classify, validateTransitions, StartupCleanup
--     .Matrix                   the matrix of docs/design/004-task-runtime-detailed-design.md, 6.11
--     .Tool, .Classified, .WriteTool, .Kept, .Counted   the classification against it, the transaction
--   TaskRuntime.Recover         internal/taskruntime/recover.go: requests, receipts, recoveryPhase
--     .Failure                  terminalizeFailure, insertRecoverReceipt; RecoveryRepository and Insert of
--                               internal/adapter/postgres/taskruntime/repository.go
--     .Version, .Service        RecoverTask: the writes of the next version, the transaction
--     .Rejected, .Course, .Answered  which way a command that recovers has gone
--     .Writes, .Kept, .Requeued the rows it leaves; .Stuck: a task that is still Running
--   PostgresRuntime             internal/adapter/postgres/runtime/runtime.go: states, admission, gate
--     .Schedule                 Execute, TryExecute and the other users of the gate as steps
--     .Exclusive, .Sealed, .Failure   the gate, the end of writes, the channel of failures
--   TimeoutScanner              internal/app/timeout_scanner.go: NewTimeoutScanner, Run, scan
--     .Stopped                  what a scanner that gives up has done
-- The modules called Examples have tests and instances at concrete inputs. Prelude passes on the names
-- of the library and has the operators that all parts share.
--
-- How the source is read:
--   - a status or code is a Go string: its data type has the declared constants, and `unknown s` for
--     every other string; identifiers are texts, versions and times numbers, with 0 for Go's zero time;
--   - a pointer is an option; raw JSON is its text; an interface of closed variants has one more
--     constructor, `foreign`, for a value of no declared variant where the code tests for it;
--   - a table is a function of its key; a transaction passes the tables on, and an error drops them;
--     transactions do not overlap, as the write gate of internal/adapter/postgres/runtime ensures, and
--     what other writers commit between the two transactions of a claim is a parameter;
--   - CancelTask and ExpireTask work on command receipts and on a repository of terminations that the
--     repository does not implement: a parameter, as JSON, jsonb and the fingerprint of a request are;
--   - the checkpoint and report ports, the clock, the configuration and its hash, and the collation of
--     the database are parameters: what they answer, with the requests that they accepted recorded;
--   - a registry is a heap of entries and a map of pointers, since handles alias entries; goroutines are
--     steps in any order, each step what one lock of the mutex protects;
--   - the loop of the Worker runs on a list of rounds, each with what the port, the context and the
--     timer did in that turn; a list that is used up is a loop that still runs;
--   - a text of a decimal is its list of bytes; the digits of a number are printed on fuel one above the
--     number, which is enough since each digit divides it by ten. No other fuel is used;
--   - the loop of the timeout scanner runs on a list of ticks, as that of the Worker does on rounds;
--   - the goroutines of the PostgreSQL runtime are counted by the place where they stand, and a step is
--     one critical section of one of them; the tests of a section and of the connection behind it are
--     taken together, since a closed connection is never opened again.
--
-- Not modelled: nil receivers and missing dependencies, failures of the database driver, the
-- best-effort task log, and so far the other commands of the Task Runtime (create, execute),
-- internal/checkpoint, internal/planner, internal/stepexecutor,
-- the configuration, the HTTP API and the host. SQL that is no statement of the Claim, prompts and the
-- model client are text or foreign code.
pub mod Prelude
pub mod Contracts
pub mod Lifecycle
pub mod ActiveCall
pub mod Worker
pub mod TaskRuntime
pub mod PostgresRuntime
pub mod TimeoutScanner
