-- ===== src/TaskRuntime/Startup/Counted.antt =====
-- internal/taskruntime/startup_cleanup.go: what `StartupCleanup` has done, and its summary.
use agentops_go.Prelude.{
  ℕ, suc, ◌+◌, String, Bool, true, false, List, [], ◌∷◌, text_eq, ◌≡◌, refl, sym, ap, subst, ◌∙◌,
  inl, inr, Bool-cases, arith, if◌then◌else◌,
}
use agentops_go.TaskRuntime.Ports.{EnsurePendingReportResult}
use agentops_go.TaskRuntime.Store.Transaction.{ok}
use agentops_go.TaskRuntime.Store.Blocks.{after-eq_ok, ok_inj, err-ne-ok, execute-cases}
use agentops_go.TaskRuntime.Startup.{StartupCleanupFacts}
use agentops_go.TaskRuntime.Startup.Request.{
  StartupCleanupDisposition, ApplyStartupCleanupRequest, StartupCleanupSummary, StartupPorts,
}
use agentops_go.TaskRuntime.Startup.Service.{
  answered, zero_summary, counted, transitions_valid, report_known, reported, must_apply, classify,
  write_cleanup, clean_one, clean_all, cleanup_work, startup_cleanup,
}
use agentops_go.TaskRuntime.Startup.Classified.{answered-eq_ok, classify-Scene}

module _ {D : Type 0} (p : StartupPorts D) (worker : String) (now : ℕ) where
  -- The executions in the order in which they were locked, each classified and written before the next
  -- one, with how many were interrupted and how many were ended. One that is ended has its report.
  pub data Cleaned : List StartupCleanupFacts → D → D → ℕ → ℕ → Type 0 where
    nothing : (s : D) → Cleaned [] s s 0 0
    interrupted :
        {f : StartupCleanupFacts} {fs : List StartupCleanupFacts} {i t : ℕ} {s s1 s2 s' : D}
        (r : ApplyStartupCleanupRequest)
        → classify p f worker now s ≡ ok ((r, false), s1)
        → r.disposition ≡ StartupCleanupDisposition.interrupt
        → p.apply r s1 ≡ ok (true, s2)
        → Cleaned fs s2 s' i t
        → Cleaned (f ∷ fs) s s' (suc i) t
    ended :
        {f : StartupCleanupFacts} {fs : List StartupCleanupFacts} {i t : ℕ} {s s1 s2 s3 s' : D}
        (r : ApplyStartupCleanupRequest) (answer : EnsurePendingReportResult)
        → classify p f worker now s ≡ ok ((r, true), s1)
        → r.disposition ≡ StartupCleanupDisposition.terminal
        → p.apply r s1 ≡ ok (true, s2)
        → p.ensure_pending (f.task.task_id, f.run.run_id, now) s2 ≡ ok (answer, s3)
        → Cleaned fs s3 s' i t
        → Cleaned (f ∷ fs) s s' i (suc t)

  -- The disposition that goes with the flag.
  abbrev disposed : Bool → StartupCleanupDisposition
  disposed ends =
      if ends then StartupCleanupDisposition.terminal else StartupCleanupDisposition.interrupt

  classify-disposed :
      (f : StartupCleanupFacts) (s : D) {r : ApplyStartupCleanupRequest} {ends : Bool} {s' : D}
      → classify p f worker now s ≡ ok ((r, ends), s')
      → r.disposition ≡ disposed ends
  classify-disposed f s {r} {ends} {s'} h =
      let found = classify-Scene p f worker now s (r, ends) s' h in
      ap (λ c. c.0.disposition) found.written ∙ ap (λ c. disposed c.1) (sym found.written)

  must_apply-eq_ok :
      (b : Bool) (s : D) {u : Unit {0}} {s' : D}
      → must_apply b s ≡ ok (u, s')
      → (b ≡ true) × (s ≡ s')
  must_apply-eq_ok true s h = (refl, ap (λ x. x.1) (ok_inj h))
  must_apply-eq_ok false s h = absurd (err-ne-ok h)

  -- The write of one execution was applied, and then the rest of the block ran.
  write_cleanup-eq_ok :
      (f : StartupCleanupFacts) (r : ApplyStartupCleanupRequest) (ends : Bool) (s : D) {b : Bool}
      {s' : D}
      → write_cleanup p f now (r, ends) s ≡ ok (b, s')
      → (s1 : D) × (p.apply r s ≡ ok (true, s1))
        × (reported p f now ends s1 ≡ ok (tt, s'))
        × (ends ≡ b)
  unfolding write_cleanup
  write_cleanup-eq_ok f r ends s h =
      let (_, s1, h1, k1) = after-eq_ok (answered (transitions_valid f r.disposition) s) _ h in
      let (b, s2, h2, k2) = after-eq_ok (p.apply r s1) _ k1 in
      let (_, s3, h3, k3) = after-eq_ok (must_apply b s2) _ k2 in
      let (u, s4, h4, k4) = after-eq_ok (reported p f now ends s3) _ k3 in
      let (hit, same) = must_apply-eq_ok b s2 h3 in
      let (_, here) = answered-eq_ok (transitions_valid f r.disposition) s h1 in
      (
        s3,
        ap (p.apply r) here ∙ h2 ∙ ap (λ x. ok (x, s2)) hit ∙ ap (λ x. ok (true, x)) same,
        h4 ∙ ap (λ x. ok (tt, x)) (ap (λ x. x.1) (ok_inj k4)),
        ap (λ x. x.0) (ok_inj k4),
      )

  report_known-same :
      (a : EnsurePendingReportResult) (s : D) {u : Unit {0}} {s' : D}
      → report_known a s ≡ ok (u, s')
      → s ≡ s'
  unfolding report_known
  report_known-same EnsurePendingReportResult.created s h = ap (λ x. x.1) (ok_inj h)
  report_known-same EnsurePendingReportResult.existing s h = ap (λ x. x.1) (ok_inj h)
  report_known-same EnsurePendingReportResult.foreign s h = absurd (err-ne-ok h)

  reported-eq_ok :
      (f : StartupCleanupFacts) (s : D) {s' : D}
      → reported p f now true s ≡ ok (tt, s')
      → (answer : EnsurePendingReportResult) × (p.ensure_pending
            (f.task.task_id, f.run.run_id, now)
            s
          ≡ ok (answer, s'))
  unfolding reported
  reported-eq_ok f s h =
      let (a, s1, h1, k1) =
        after-eq_ok (p.ensure_pending (f.task.task_id, f.run.run_id, now) s) _ h in
      (a, h1 ∙ ap (λ x. ok (a, x)) (report_known-same a s1 k1))

  -- What of a summary is counted anew.
  abbrev Counts : StartupCleanupSummary → StartupCleanupSummary → ℕ → ℕ → Type 0
  Counts before result i t =
      (result.interrupted ≡ before.interrupted + i)
      × (result.terminalized ≡ before.terminalized + t)
      × (result.inspected ≡ before.inspected + (i + t))

  clean_all-Cleaned :
      (fs : List StartupCleanupFacts) (before : StartupCleanupSummary) (s : D)
      {result : StartupCleanupSummary} {s' : D}
      → clean_all p worker now fs before s ≡ ok (result, s')
      → (i : ℕ) × (t : ℕ) × Cleaned fs s s' i t × Counts before result i t
  unfolding clean_all clean_one reported
  clean_all-Cleaned [] before s h = (
    0,
    0,
    subst (λ x. Cleaned [] s x 0 0) (ap (λ x. x.1) (ok_inj h)) (Cleaned.nothing s),
    subst (λ x. Counts before x 0 0) (ap (λ x. x.0) (ok_inj h))
        (omega arith, omega arith, omega arith),
  )
  clean_all-Cleaned (f ∷ fs) before s {result} {s'} h =
      let (b, s1, h1, k1) = after-eq_ok (clean_one p f worker now s) _ h in
      let ((r, ends), s2, h2, k2) = after-eq_ok (classify p f worker now s) _ h1 in
      let (s3, applied, report, same) = write_cleanup-eq_ok f r ends s2 k2 in
      let k : clean_all p worker now fs (counted ends before) s1 ≡ ok (result, s') =
        ap (λ x. clean_all p worker now fs (counted x before) s1) same ∙ k1 in
      cleaned ends h2 applied report (clean_all-Cleaned fs (counted ends before) s1 k)
    where
      cleaned :
          {r : ApplyStartupCleanupRequest} {s1 s2 s3 : D} (ends : Bool)
          → classify p f worker now s ≡ ok ((r, ends), s2)
          → p.apply r s2 ≡ ok (true, s3)
          → reported p f now ends s3 ≡ ok (tt, s1)
          → ((i : ℕ) × (t : ℕ) × Cleaned fs s1 s' i t × Counts (counted ends before) result i t)
          → (i : ℕ) × (t : ℕ) × Cleaned (f ∷ fs) s s' i t × Counts before result i t
      cleaned {r} {s1} {s2} {s3} true c a e (i, t, rest, n) =
          let (answer, made) = reported-eq_ok f s3 e in
          (
            i,
            suc t,
            Cleaned.ended r answer c (classify-disposed f s c) a made rest,
            (omega (arith, n), omega (arith, n), omega (arith, n)),
          )
      cleaned {r} {s1} {s2} {s3} false c a e (i, t, rest, n) = (
        suc i,
        t,
        Cleaned.interrupted r c (classify-disposed f s c)
            (a ∙ ap (λ x. ok (true, x)) (ap (λ x. x.1) (ok_inj e))) rest,
        (omega (arith, n), omega (arith, n), omega (arith, n)),
      )

module _ {D : Type 0} (p : StartupPorts D) (worker : String) where
  -- What has been done by a StartupCleanup that succeeds.
  pub record Done (s : D) (result : StartupCleanupSummary) (s' : D) : Type 0 where
    pub now : ℕ
    pub timed : D
    pub clock : p.now s ≡ ok (now, timed)
    pub left : List StartupCleanupFacts
    pub locked : D
    pub lock : p.lock_legacy_running_executions worker timed ≡ ok (left, locked)
    pub cleaned : Cleaned p worker now left locked s' result.interrupted result.terminalized
    pub all : result.inspected ≡ result.interrupted + result.terminalized

  work-Done :
      (s : D) {result : StartupCleanupSummary} {s' : D}
      → cleanup_work p worker s ≡ ok (result, s')
      → Done s result s'
  unfolding cleanup_work
  work-Done s {result} {s'} h =
      let (now, s1, h1, k1) = after-eq_ok (p.now s) _ h in
      let (fs, s2, h2, k2) = after-eq_ok (p.lock_legacy_running_executions worker s1) _ k1 in
      let (i, t, steps, n) = clean_all-Cleaned p worker now fs zero_summary s2 k2 in
      record {
        now = now;
        timed = s1;
        clock = h1;
        left = fs;
        locked = s2;
        lock = h2;
        cleaned =
            subst (λ x. Cleaned p worker now fs s2 s' x result.terminalized) {x = i}
              {y = result.interrupted} (omega (arith, n))
              (subst (λ x. Cleaned p worker now fs s2 s' i x) {x = t} {y = result.terminalized}
                (omega (arith, n)) steps);
        all = omega (arith, n);
      }

  -- A StartupCleanup that succeeds has read the clock, locked the executions that another worker left
  -- and classified them one after the other. Each one that the summary counts as interrupted was
  -- classified as such, and a request with the disposition to interrupt was applied for it; each one that
  -- it counts as terminalized had a request with the terminal disposition applied and its report ensured
  -- behind it; and the state is what these left. The number of inspected executions is the sum of the two.
  pub startup_cleanup-Done :
      (s : D) (result : StartupCleanupSummary) (s' : D)
      → startup_cleanup p worker s ≡ (ok result, s')
      → Done s result s'
  unfolding startup_cleanup
  startup_cleanup-Done s result s' h = elim (Bool-cases (text_eq worker "")) [
    | inl e ↦ absurd (err-ne-ok (ap (λ x. x.0) (rw e at h)))
    | inr e ↦ elim (execute-cases (cleanup_work p worker) s) [
      | inr (x, k) ↦ absurd (err-ne-ok (ap (λ y. y.0) (sym k ∙ rw e at h)))
      | inl (r, s1, h1, k) ↦
          let same = sym k ∙ rw e at h in
          subst (λ x. Done s x s') (ok_inj (ap (λ x. x.0) same))
            (subst (Done s r) (ap (λ x. x.1) same) (work-Done s h1))
    ]
  ]
