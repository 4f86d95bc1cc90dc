-- ===== src/TimeoutScanner/Stopped.antt =====
-- internal/app/timeout_scanner.go: what a scan has done when the scanner gives up.
use agentops_go.Prelude.{
  true, false, not, ◌||◌, Option, none, some, List, [], ◌∷◌, ◌++◌, text_eq, ◌≡◌, refl, sym, ap,
  subst, ◌∙◌, ◌⊎◌, inl, inr, Bool-cases, arith,
}
use agentops_go.Contracts.Execution.{execution_version_valid}
use agentops_go.ActiveCall.{Registry}
use agentops_go.TaskRuntime.Store.Transaction.{TxError, Result, ok, err}
use agentops_go.TaskRuntime.Store.Blocks.{Result-cases, execute-cases, err-ne-ok}
use agentops_go.TaskRuntime.Termination.Receipt.{Database, TerminationPorts}
use agentops_go.TaskRuntime.Termination.Expire.{
  ExpireTaskRequest, ExpireTaskResult, expire_task, expire_work, after_expire,
}
use agentops_go.TimeoutScanner.{
  TimeoutCandidate, ScanError, Turn, ScannerExit, ScannerPorts, Store, candidate_valid, request,
  expire, scan_all, scan, after_scan, scan_loop, run_scanner,
}

-- The candidates were expired one after the other, each with an answer.
pub data Expired {D : Type 0} (p : ScannerPorts D)
    : List TimeoutCandidate → Store D → Store D → Type 0 where
  nothing : (s : Store D) → Expired p [] s s
  one :
      (c : TimeoutCandidate) {cs : List TimeoutCandidate} (x : ExpireTaskResult) {s s1 s' : Store D}
      → candidate_valid c ≡ true
      → expire p c s ≡ (ok x, s1)
      → Expired p cs s1 s'
      → Expired p (c ∷ cs) s s'

-- Why a candidate ends a scan.
abbrev pub Bad : {D : Type 0} → ScannerPorts D → TimeoutCandidate → Store D → ScanError → Type 0
Bad p c s e =
    ((candidate_valid c ≡ false) × (e ≡ ScanError.invalid_candidate))
    ⊎ ((x : TxError) × (expire p c s ≡ (err x, s)) × (e ≡ ScanError.expire_failed x))

-- The list of candidates up to the one that ended the scan, over the state it started from.
pub record StoppedAt {D : Type 0} (p : ScannerPorts D) (cs : List TimeoutCandidate) (s : Store D)
    (e : ScanError) (s' : Store D) : Type 0 where
  pub earlier : List TimeoutCandidate
  pub candidate : TimeoutCandidate
  pub later : List TimeoutCandidate
  pub split : cs ≡ (earlier ++ candidate ∷ later)
  pub expired : Expired p earlier s s'
  pub bad : Bad p candidate s' e

abbrev pub Stopped : {D : Type 0} → ScannerPorts D → ScanError → Store D → Type 0
Stopped {D} p e s' =
    ((x : TxError) × (p.list_timeout_candidates s' ≡ err x) × (e ≡ ScanError.list_failed x))
    ⊎ ((s : Store D) × (cs : List TimeoutCandidate) × (p.list_timeout_candidates s ≡ ok cs)
        × StoppedAt p cs s e s')

some_inj : {A : Type 0} {a b : A} → some a ≡ some b → a ≡ b
some_inj h = ground arith

reply_cases :
    {A S : Type 0} (r : Result A × S)
    → ((a : A) × (r ≡ (ok a, r.1))) ⊎ ((e : TxError) × (r ≡ (err e, r.1)))
reply_cases (ok a, s) = inl (a, refl)
reply_cases (err e, s) = inr (e, refl)

module _ {D : Type 0} where
  -- An ExpireTask that fails has changed nothing.
  expire_task-failed :
      (p : TerminationPorts D) (q : ExpireTaskRequest) (s : Database D) (r : Registry) {e : TxError}
      {s' : Store D}
      → expire_task p q s r ≡ (err e, s')
      → (s, r) ≡ s'
  unfolding expire_task after_expire
  expire_task-failed p q s r {e} {s'} h =
      elim (Bool-cases
        (text_eq q.task_id "" || not (execution_version_valid q.observed_execution_version))) [
          | inl invalid ↦ ap (λ x. x.1) (rw invalid at h)
          | inr given ↦ elim (execute-cases (expire_work p q) s) [
            | inr (x, k) ↦ ap (λ x. x.1) (rw (given, k) at h)
            | inl (a, s1, h1, k) ↦ absurd (err-ne-ok (sym (ap (λ x. x.0) (rw (given, k) at h))))
          ]
        ]

  scan_all-Stopped :
      (p : ScannerPorts D) (cs : List TimeoutCandidate) (s : Store D) {e : ScanError} {s' : Store D}
      → scan_all p cs s ≡ (some e, s')
      → StoppedAt p cs s e s'
  unfolding scan_all
  scan_all-Stopped p [] s h = absurd (ground arith)
  scan_all-Stopped p (c ∷ cs) s {e} {s'} h = elim (Bool-cases (candidate_valid c)) [
    | inr bad ↦
        let stop = rw bad at h in
        record {
          earlier = [];
          candidate = c;
          later = cs;
          split = refl;
          expired = subst (Expired p [] s) (ap (λ x. x.1) stop) (Expired.nothing s);
          bad = inl (bad, sym (some_inj (ap (λ x. x.0) stop)));
        }
    | inl good ↦ elim (reply_cases (expire p c s)) [
      | inl (x, k) ↦
          let rest = scan_all-Stopped p cs (expire p c s).1 (rw (good, k) at h) in
          record {
            earlier = c ∷ rest.earlier;
            candidate = rest.candidate;
            later = rest.later;
            split = ap (λ x. c ∷ x) rest.split;
            expired = Expired.one c x good k rest.expired;
            bad = rest.bad;
          }
      | inr (x, k) ↦
          let stop = rw (good, k) at h in
          let here : (expire p c s).1 ≡ s' = ap (λ y. y.1) stop in
          let kept : s ≡ s' =
            expire_task-failed (p.ports (request c) s) (request c) s.0 s.1 k ∙ here in
          record {
            earlier = [];
            candidate = c;
            later = cs;
            split = refl;
            expired = subst (Expired p [] s) kept (Expired.nothing s);
            bad = inr (
              x,
              subst (λ y. expire p c y ≡ (err x, y)) kept
                  (k ∙ ap (λ y. (err x, y)) (here ∙ sym kept)),
              sym (some_inj (ap (λ y. y.0) stop)),
            );
          }
    ]
  ]

  scan-Stopped :
      (p : ScannerPorts D) (s : Store D) {e : ScanError} {s' : Store D}
      → scan p s ≡ (some e, s')
      → Stopped p e s'
  unfolding scan
  scan-Stopped p s {e} {s'} h = elim (Result-cases (p.list_timeout_candidates s)) [
    | inl (cs, k) ↦ inr (s, cs, k, scan_all-Stopped p cs s (rw (k, scan) at h))
    | inr (x, k) ↦
        let stop = rw (k, scan) at h in
        let same = ap (λ y. y.1) stop in
        inl (
          x,
          subst (λ y. p.list_timeout_candidates y ≡ err x) same k,
          sym (some_inj (ap (λ y. y.0) stop)),
        )
  ]

  after_scan-Stopped :
      (p : ScannerPorts D) (r : Option ScanError × Store D) (rest : Store D → ScannerExit × Store D)
      (s : Store D) {e : ScanError} {s' : Store D}
      → scan p s ≡ r
      → ((s1 : Store D) → rest s1 ≡ (ScannerExit.failed e, s') → Stopped p e s')
      → after_scan r rest ≡ (ScannerExit.failed e, s')
      → Stopped p e s'
  after_scan-Stopped p (none, s1) rest s k later h = later s1 h
  after_scan-Stopped p (some x, s1) rest s k later h = scan-Stopped p s (k ∙ ground (arith, h))

  scan_loop-Stopped :
      (p : ScannerPorts D) (ts : List (Turn (Store D))) (s : Store D) {e : ScanError} {s' : Store D}
      → scan_loop p ts s ≡ (ScannerExit.failed e, s')
      → Stopped p e s'
  unfolding scan_loop
  scan_loop-Stopped p [] s h = absurd (ground arith)
  scan_loop-Stopped p (Turn.done cause ∷ ts) s h = absurd (ground arith)
  scan_loop-Stopped p (Turn.tick others ∷ ts) s h =
      after_scan-Stopped p (scan p (others s)) (scan_loop p ts) (others s) refl
        (λ s1 k. scan_loop-Stopped p ts s1 k) h

  -- A Run that fails could not list the candidates, or has come to one that is invalid or whose ExpireTask fails, at the state it leaves. Then every candidate before it in the list was valid and was answered by ExpireTask, one after the other from the state that was listed, and the state is what they left: the failing ExpireTask has changed nothing, and no later candidate was touched.
  pub run_scanner-Stopped :
      (p : ScannerPorts D) (ts : List (Turn (Store D))) (s : Store D) (e : ScanError) (s' : Store D)
      → run_scanner p ts s ≡ (ScannerExit.failed e, s')
      → Stopped p e s'
  unfolding run_scanner
  run_scanner-Stopped p ts s e s' h =
      after_scan-Stopped p (scan p s) (scan_loop p ts) s refl (λ s1 k. scan_loop-Stopped p ts s1 k)
        h
