-- ===== src/TimeoutScanner.antt =====
-- internal/app/timeout_scanner.go: the scanner that submits the tasks behind their deadline to `ExpireTask`,
-- each in a transaction of its own. What the source of candidates and the ports of a call answer is read
-- off the state in which they are asked; an interval is a number of nanoseconds.
pub mod Stopped
mod Examples
use agentops_go.Prelude.{
  ℕ, String, Bool, true, false, not, ◌&&◌, ◌*◌, Option, none, some, List, [], ◌∷◌, ltb, leb,
  if◌then◌else◌, text_eq,
}
use agentops_go.Contracts.Execution.{execution_version_valid}
use agentops_go.ActiveCall.{Registry}
use agentops_go.TaskRuntime.Store.Transaction.{TxError, Result, ok, err}
use agentops_go.TaskRuntime.Termination.Receipt.{Database, TerminationPorts}
use agentops_go.TaskRuntime.Termination.Expire.{ExpireTaskRequest, ExpireTaskResult, expire_task}

pub record TimeoutCandidate : Type 0 where
  pub task_id : String
  pub observed_execution_version : ℕ

pub data ScanError : Type 0 where
  invalid_candidate : ScanError
  list_failed expire_failed : TxError → ScanError

-- What ends a wait: the ticker, before which other writers have changed the state, or the context with
-- its cause.
pub data Turn (S : Type 0) : Type 0 where
  tick : (S → S) → Turn S
  done : ℕ → Turn S

-- How `Run` returns; `running` where the turns are used up.
pub data ScannerExit : Type 0 where
  failed : ScanError → ScannerExit
  ended : ℕ → ScannerExit
  running : ScannerExit

-- `NewTimeoutScanner`: whether an interval is accepted.
unfoldable pub interval_valid : ℕ → Bool
interval_valid interval = ltb 0 interval && leb interval (5 * 1000000000)

unfoldable pub candidate_valid : TimeoutCandidate → Bool
candidate_valid c =
    not (text_eq c.task_id "") && execution_version_valid c.observed_execution_version

abbrev pub request : TimeoutCandidate → ExpireTaskRequest
request c = record {
  task_id = c.task_id;
  observed_execution_version = c.observed_execution_version;
}

abbrev pub Store : Type 0 → Type 0
Store D = Database D × Registry

pub record ScannerPorts (D : Type 0) : Type 0 where
  pub list_timeout_candidates : Store D → Result (List TimeoutCandidate)
  pub ports : ExpireTaskRequest → Store D → TerminationPorts D

module _ {D : Type 0} where
  abbrev pub expire :
      ScannerPorts D → TimeoutCandidate → Store D → Result ExpireTaskResult × Store D
  expire p c s = expire_task (p.ports (request c) s) (request c) s.0 s.1

  -- The rest of a scan, behind the answer on a candidate.
  abbrev pub after_candidate :
      Result ExpireTaskResult × Store D
      → (Store D → Option ScanError × Store D)
      → Option ScanError × Store D
  after_candidate (ok _, s) rest = rest s
  after_candidate (err e, s) rest = (some (ScanError.expire_failed e), s)

  unfoldable pub scan_all :
      ScannerPorts D → List TimeoutCandidate → Store D → Option ScanError × Store D
  unfolding candidate_valid
  scan_all p [] s = (none, s)
  scan_all p (c ∷ cs) s =
      let rest = scan_all p cs in
      if candidate_valid c
      then after_candidate (expire p c s) rest
      else (some ScanError.invalid_candidate, s)

  -- `scan`.
  unfoldable pub scan : ScannerPorts D → Store D → Option ScanError × Store D
  unfolding scan_all
  scan p s = elim (p.list_timeout_candidates s) [
    | err e ↦ (some (ScanError.list_failed e), s)
    | ok cs ↦ scan_all p cs s
  ]

  abbrev pub after_scan :
      Option ScanError × Store D → (Store D → ScannerExit × Store D) → ScannerExit × Store D
  after_scan (some e, s) rest = (ScannerExit.failed e, s)
  after_scan (none, s) rest = rest s

  -- The loop of `Run` behind its first scan.
  unfoldable pub scan_loop :
      ScannerPorts D → List (Turn (Store D)) → Store D → ScannerExit × Store D
  unfolding scan
  scan_loop p [] s = (ScannerExit.running, s)
  scan_loop p (Turn.done cause ∷ ts) s = (ScannerExit.ended cause, s)
  scan_loop p (Turn.tick others ∷ ts) s = after_scan (scan p (others s)) (scan_loop p ts)

  -- `Run`.
  unfoldable pub run_scanner :
      ScannerPorts D → List (Turn (Store D)) → Store D → ScannerExit × Store D
  unfolding scan scan_loop
  run_scanner p ts s = after_scan (scan p s) (scan_loop p ts)
