-- ===== src/TaskRuntime/Startup/Kept.antt =====
-- internal/taskruntime/startup_cleanup.go: what the transaction of `StartupCleanup` writes.
use agentops_go.Prelude.{
  ℕ, String, Bool, true, false, Option, List, [], ◌∷◌, leb, if◌then◌else◌, text_eq, ◌≡◌, subst, inl,
  inr, Bool-cases, arith,
}
use agentops_go.Contracts.Codes.{ReasonCode}
use agentops_go.TaskRuntime.Store.Transaction.{Tx, TxError, Result, ok, pure, fail, ◌>>=◌, ◌>>◌}
use agentops_go.TaskRuntime.Store.Blocks.{after-eq_ok, execute-cases}
use agentops_go.TaskRuntime.Ports.{EnsurePendingReportResult}
use agentops_go.TaskRuntime.Startup.{
  StartupCleanupFacts, StartupTool, startup_facts_valid, startup_tool_kind,
}
use agentops_go.TaskRuntime.Startup.Request.{
  ApplyStartupCleanupRequest, StartupCleanupCheckpointResult, StartupCleanupSummary, StartupPorts,
}
use agentops_go.TaskRuntime.Startup.Service.{
  Classified, startup_tools, transitions_valid, zero_summary, counted, answered, classify_in_time,
  classify_kind, classify, report_known, reported, must_apply, write_cleanup, clean_one, clean_all,
  cleanup_work, startup_cleanup,
}
use agentops_go.TaskRuntime.Startup.Matrix.{prescribed}
use agentops_go.TaskRuntime.Startup.Classified.{answered-eq_ok, classify-Scene}

-- A write of the matrix, on an execution of another worker whose facts were in order, that the
-- policy allows; `ends` is whether it ends the task.
pub record CleanupWrite (worker : String) (now : ℕ) (f : StartupCleanupFacts)
    (r : ApplyStartupCleanupRequest) (ends : Bool) : Type 0 where
  pub late : Bool
  pub reason : Option ReasonCode
  pub kind : StartupTool
  pub valid : startup_facts_valid f worker ≡ true
  pub request : (r, ends) ≡ prescribed f now late reason kind
  pub legal : transitions_valid f r.disposition ≡ ok tt

module _ {D : Type 0} (p : StartupPorts D) (worker : String) (I : D → Type 0) where
  -- The ports keep an invariant of the database: those that read do, the writes of the matrix do, and
  -- so does the report of a task that is ended.
  pub record PortsKeep : Type 0 where
    pub now : (s : D) {n : ℕ} {s' : D} → I s → p.now s ≡ ok (n, s') → I s'
    pub locked :
        (s : D) {fs : List StartupCleanupFacts} {s' : D}
        → I s
        → p.lock_legacy_running_executions worker s ≡ ok (fs, s')
        → I s'
    pub loaded :
        (task run : String) (version : ℕ) (s : D) {k : StartupCleanupCheckpointResult} {s' : D}
        → I s
        → p.load_latest task run version s ≡ ok (k, s')
        → I s'
    pub applied :
        (now : ℕ) (f : StartupCleanupFacts) (r : ApplyStartupCleanupRequest) (ends : Bool)
        → CleanupWrite worker now f r ends
        → (s : D) {b : Bool} {s' : D} → I s
        → p.apply r s ≡ ok (b, s')
        → I s'
    pub ensured :
        (now : ℕ) (f : StartupCleanupFacts) (r : ApplyStartupCleanupRequest)
        → CleanupWrite worker now f r true
        → (s : D) {a : EnsurePendingReportResult} {s' : D} → I s
        → p.ensure_pending (f.task.task_id, f.run.run_id, now) s ≡ ok (a, s')
        → I s'

-- A statement keeps the invariant where it succeeds.
record Holds {D A : Type 0} (I : D → Type 0) (m : Tx D A) : Type 0 where
  at : (s : D) {a : A} {s' : D} → I s → m s ≡ ok (a, s') → I s'

module _ {D A : Type 0} {I : D → Type 0} where
  Holds-bind :
      {B : Type 0} (m : Tx D A) (f : A → Tx D B)
      → Holds I m
      → ((a : A) → Holds I (f a))
      → Holds I (m >>= f)
  Holds-bind m f h k = record {
    at = λ s i e. let (a, s1, h1, k1) = after-eq_ok (m s) f e in (k a).at s1 (h.at s i h1) k1;
  }

  Holds-answered : (r : Result A) → Holds I (answered r)
  Holds-answered r = record { at = λ s i e. let (_, same) = answered-eq_ok r s e in subst I same i }

  Holds-pure : (a : A) → Holds I (pure a)
  Holds-pure a = record { at = λ s i e. subst I (ground arith) i }

  Holds-fail : (e : TxError) → Holds I (fail {S = D} {A = A} e)
  Holds-fail e = record { at = λ s i h. absurd (ground arith) }

  Holds-if : (b : Bool) (m n : Tx D A) → Holds I m → Holds I n → Holds I (if b then m else n)
  Holds-if true m n h k = h
  Holds-if false m n h k = k

module _ {D : Type 0} (p : StartupPorts D) (worker : String) (I : D → Type 0)
    (keep : PortsKeep p worker I) where
  classify_in_time-Holds :
      (f : StartupCleanupFacts) (now : ℕ) (kind : StartupTool)
      → Holds I (classify_in_time p f now kind)
  unfolding classify_in_time
  classify_in_time-Holds f now kind =
      Holds-bind _ _
        (record {
          at = λ s i e. keep.loaded f.task.task_id f.run.run_id f.execution.execution_version s i e;
        })
        (λ k. Holds-answered _)

  classify_kind-Holds :
      (f : StartupCleanupFacts) (now : ℕ) (kind : StartupTool)
      → Holds I (classify_kind p f now kind)
  unfolding classify_kind
  classify_kind-Holds f now kind = Holds-if _ _ _ (classify_in_time-Holds f now kind) (Holds-pure _)

  classify-Holds : (f : StartupCleanupFacts) (now : ℕ) → Holds I (classify p f worker now)
  unfolding classify
  classify-Holds f now = record {
    at = λ s i e. elim (Bool-cases (startup_facts_valid f worker)) [
      | inl valid ↦
          (Holds-bind
              (answered (startup_tools (p.lookup_agent f.task.agent_id) p.hash_execution_config f))
              _ (Holds-answered _)
              (λ tools.
                Holds-bind (answered (startup_tool_kind f tools)) (classify_kind p f now)
                  (Holds-answered _) (classify_kind-Holds f now))).at
            s i (rw valid at e)
      | inr invalid ↦ absurd (ground (arith, invalid, e))
    ];
  }

  report_known-Holds : (a : EnsurePendingReportResult) → Holds I (report_known a)
  unfolding report_known
  report_known-Holds EnsurePendingReportResult.created = Holds-pure tt
  report_known-Holds EnsurePendingReportResult.existing = Holds-pure tt
  report_known-Holds EnsurePendingReportResult.foreign = Holds-fail _

  reported-Holds :
      (f : StartupCleanupFacts) (now : ℕ) (r : ApplyStartupCleanupRequest) (ends : Bool)
      → CleanupWrite worker now f r ends
      → Holds I (reported p f now ends)
  unfolding reported
  reported-Holds f now r false w = Holds-pure tt
  reported-Holds f now r true w =
      Holds-bind _ _ (record { at = λ s i e. keep.ensured now f r w s i e }) report_known-Holds

  written-Holds :
      (f : StartupCleanupFacts) (now : ℕ) (r : ApplyStartupCleanupRequest) (ends : Bool)
      → CleanupWrite worker now f r ends
      → Holds I (p.apply r >>= λ b. (must_apply b >> (reported p f now ends >> pure ends)))
  written-Holds f now r ends w =
      Holds-bind _ _ (record { at = λ s i e. keep.applied now f r ends w s i e })
        (λ b.
          Holds-bind _ _ (Holds-if b _ _ (Holds-pure tt) (Holds-fail _))
            (λ _. Holds-bind _ _ (reported-Holds f now r ends w) (λ _. Holds-pure ends)))

  write_cleanup-Holds :
      (f : StartupCleanupFacts) (now : ℕ) (c : Classified)
      → (transitions_valid f c.0.disposition ≡ ok tt → CleanupWrite worker now f c.0 c.1)
      → Holds I (write_cleanup p f now c)
  unfolding write_cleanup
  write_cleanup-Holds f now (r, ends) w = record {
    at = λ s i e.
        let (u, s1, h1, k1) = after-eq_ok (answered (transitions_valid f r.disposition) s) _ e in
        let (legal, same) = answered-eq_ok (transitions_valid f r.disposition) s h1 in
        (written-Holds f now r ends (w legal)).at s1 (subst I same i) k1;
  }

  clean_one-Holds : (f : StartupCleanupFacts) (now : ℕ) → Holds I (clean_one p f worker now)
  unfolding clean_one
  clean_one-Holds f now = record {
    at = λ s i e.
        let (c, s1, h1, k1) = after-eq_ok (classify p f worker now s) _ e in
        let found = classify-Scene p f worker now s c s1 h1 in
        (write_cleanup-Holds f now c (λ legal. record {
          late = leb f.task.deadline_at now;
          reason = found.reason;
          kind = found.kind;
          valid = found.facts;
          request = found.written;
          legal = legal;
        })).at
          s1 ((classify-Holds f now).at s i h1) k1;
  }

  clean_all-Holds :
      (now : ℕ) (fs : List StartupCleanupFacts) (summary : StartupCleanupSummary)
      → Holds I (clean_all p worker now fs summary)
  unfolding clean_all
  clean_all-Holds now [] summary = Holds-pure summary
  clean_all-Holds now (f ∷ fs) summary =
      Holds-bind (clean_one p f worker now) _ (clean_one-Holds f now)
        (λ ends. clean_all-Holds now fs (counted ends summary))

  cleanup_work-Holds : Holds I (cleanup_work p worker)
  unfolding cleanup_work
  cleanup_work-Holds =
      Holds-bind p.now _ (record { at = λ s i e. keep.now s i e })
        (λ now.
          Holds-bind (p.lock_legacy_running_executions worker) _
            (record { at = λ s i e. keep.locked s i e })
            (λ fs. clean_all-Holds now fs zero_summary))

  -- An invariant of the database that the ports keep when they read, when they apply a write of the
  -- matrix that the policy allows to an execution of another worker, and when they report a task that
  -- such a write ends, holds after every StartupCleanup.
  pub startup_cleanup-Kept : (s : D) → I s → I ((startup_cleanup p worker s).1)
  unfolding startup_cleanup
  startup_cleanup-Kept s i = elim (Bool-cases (text_eq worker "")) [
    | inl e ↦ rw e i
    | inr e ↦ elim (execute-cases (cleanup_work p worker) s) [
      | inl (a, s', h, k) ↦ rw (e, k) (cleanup_work-Holds.at s i h)
      | inr (x, k) ↦ rw (e, k) i
    ]
  ]
