-- ===== src/TaskRuntime/Termination/Kept.antt =====
-- The receipt that a committed cancellation leaves in the table.
use agentops_go.Prelude.{
  ℕ, true, false, none, some, ◌≡◌, sym, subst, arith, ltb, Bool-cases, Option-cases, inl, inr,
}
use agentops_go.Contracts.Status.{task_status_terminal, TaskStatus}
use agentops_go.Contracts.Codes.{ErrorCode, TerminationReason}
use agentops_go.TaskRuntime.Store.Transaction.{Tx, Result, ok, execute}
use agentops_go.TaskRuntime.Store.Blocks.{after-eq_ok}
use agentops_go.TaskRuntime.Store.Updates.{text_eq_refl}
use agentops_go.TaskRuntime.Termination.{TerminationFacts}
use agentops_go.TaskRuntime.Termination.Receipt.{
  CancelTaskRequest, CancelReceiptResponse, CommandReceipt, CommandType, Committed, Database,
  TerminationPorts, ReceiptError, receipt_valid, is_cancel, owner_key, timed_out_receipt,
  cancelled_receipt, rejected_receipt,
}
use agentops_go.TaskRuntime.Termination.Cancel.{
  insert_receipt, keep_receipt, cancel_ended, cancel_in_time, cancel_late, cancel_facts,
  cancel_anew, cancel_work, replay, same_command, on_rest, answered, terminate, decoded,
}

pub ok-subst :
    {A S : Type 0} (P : A → S → Type 0) {a b : A} {s s' : S}
    → ◌≡◌ {A = Result (A × S)} (ok (a, s)) (ok (b, s'))
    → P a s
    → P b s'
ok-subst P {a} {b} {s} {s'} h x =
    let same : a ≡ b = ground arith in
    let state : s ≡ s' = ground arith in subst (λ y. P y s') same (subst (P a) state x)

pub execute_ok :
    {A S : Type 0} (m : Tx S A) {s s1 : S} {a : A} → execute m s ≡ (ok a, s1) → m s ≡ ok (a, s1)
unfolding execute
execute_ok m h = ground arith

module _ {D : Type 0} (p : TerminationPorts D) (q : CancelTaskRequest) where
  -- The response is read back from its stored JSON as it was.
  abbrev pub ReadBack : CancelReceiptResponse → Type 0
  ReadBack r = p.decode (p.stored (p.encode r)) ≡ some r

  -- The receipt of the request is in the table, with this response.
  pub record Kept (r : CancelReceiptResponse) (s : Database D) : Type 0 where
    pub receipt : CommandReceipt
    pub there : s.receipts q.command_id ≡ some receipt
    pub same : same_command p q receipt ≡ true
    pub response : p.decode receipt.response ≡ some r

  abbrev kept_receipt : ℕ → Committed → CommandReceipt
  kept_receipt now c = record {
    command_id = q.command_id;
    command_type = CommandType.cancel;
    target_id = q.task_id;
    request_fingerprint = p.fingerprint q.task_id q.operator_id;
    response = p.stored (p.encode c.response);
    created_at = now;
  }

  first_response :
      {a b : Committed} {s s' : Database D}
      → ◌≡◌ {A = Result (Committed × Database D)} (ok (a, s)) (ok (b, s'))
      → a.response ≡ b.response
  first_response h = ground arith

  abbrev sent_receipt : ℕ → Committed → CommandReceipt
  sent_receipt now c = record (kept_receipt now c) { response = p.encode c.response }

  inserted :
      (now : ℕ) (c : Committed) (s s1 : Database D) (u : Unit {0})
      → insert_receipt p.stored (sent_receipt now c) s ≡ ok (u, s1)
      → s1.receipts q.command_id ≡ some (kept_receipt now c)
  unfolding insert_receipt
  inserted now c s s1 u h = elim (Option-cases (s.receipts q.command_id)) [
    | inr (k, e) ↦ absurd (ground arith)
    | inl e ↦ ground (arith, text_eq_refl q.command_id)
  ]

  keep_receipt-Kept :
      (now : ℕ) (c0 c : Committed) (s s1 : Database D)
      → keep_receipt p q now c0 s ≡ ok (c, s1)
      → ReadBack c.response
      → Kept c.response s1
  unfolding keep_receipt same_command is_cancel
  keep_receipt-Kept now c0 c s s1 h j =
      let (u, s2, h2, k2) = after-eq_ok (insert_receipt p.stored (sent_receipt now c0) s) _ h in
      ok-subst (λ x y. Kept x.response y) k2
        (record {
          receipt = kept_receipt now c0;
          there = inserted now c0 s s2 u h2;
          same =
              ground (
                arith,
                text_eq_refl q.task_id,
                text_eq_refl (p.fingerprint q.task_id q.operator_id),
              );
          response = subst ReadBack (sym (first_response k2)) j;
        })

  cancel_ended-Kept :
      (f : TerminationFacts) (now : ℕ) (c : Committed) (s s1 : Database D)
      → cancel_ended p q f now s ≡ ok (c, s1)
      → ReadBack c.response
      → Kept c.response s1
  unfolding cancel_ended
  cancel_ended-Kept f now c s s1 h j =
      keep_receipt-Kept now
        (record {
          response = rejected_receipt f ReceiptError.already_terminal;
          wrote_terminal = false;
          cancel_key = none;
        })
        c s s1 h j

  cancel_in_time-Kept :
      (f : TerminationFacts) (now : ℕ) (c : Committed) (s s1 : Database D)
      → cancel_in_time p q f now s ≡ ok (c, s1)
      → ReadBack c.response
      → Kept c.response s1
  unfolding cancel_in_time
  cancel_in_time-Kept f now c s s1 h j =
      let (_, s2, _, h2) =
        after-eq_ok
          (terminate p f now TaskStatus.cancelled ErrorCode.task_cancelled
            TerminationReason.cancelled s)
          _ h in
      keep_receipt-Kept now
        (record {
          response = cancelled_receipt f TerminationReason.cancelled;
          wrote_terminal = true;
          cancel_key = owner_key f f.execution.worker_id;
        })
        c s2 s1 h2 j

  cancel_late-Kept :
      (f : TerminationFacts) (now : ℕ) (c : Committed) (s s1 : Database D)
      → cancel_late p q f now s ≡ ok (c, s1)
      → ReadBack c.response
      → Kept c.response s1
  unfolding cancel_late
  cancel_late-Kept f now c s s1 h j =
      let (_, s2, _, h2) =
        after-eq_ok
          (terminate p f now TaskStatus.failed ErrorCode.task_timeout TerminationReason.timed_out s)
          _ h in
      keep_receipt-Kept now
        (record {
          response = timed_out_receipt f;
          wrote_terminal = true;
          cancel_key = owner_key f f.execution.worker_id;
        })
        c s2 s1 h2 j

  cancel_facts-Kept :
      (f : TerminationFacts) (now : ℕ) (c : Committed) (s s1 : Database D)
      → cancel_facts p q f now s ≡ ok (c, s1)
      → ReadBack c.response
      → Kept c.response s1
  unfolding cancel_facts
  cancel_facts-Kept f now c s s1 h j = elim (Bool-cases (task_status_terminal f.task.status)) [
    | inl ended ↦ cancel_ended-Kept f now c s s1 (ground arith) j
    | inr live ↦ elim (Bool-cases (ltb now f.task.deadline_at)) [
      | inl early ↦ cancel_in_time-Kept f now c s s1 (ground arith) j
      | inr late ↦ cancel_late-Kept f now c s s1 (ground arith) j
    ]
  ]

  cancel_anew-Kept :
      (c : Committed) (s s1 : Database D)
      → cancel_anew p q s ≡ ok (c, s1)
      → ReadBack c.response
      → Kept c.response s1
  unfolding cancel_anew
  cancel_anew-Kept c s s1 h j =
      let (f, s2, _, h2) = after-eq_ok (on_rest (p.lock_facts q.task_id) s) _ h in
      let (now, s3, _, h3) = after-eq_ok (answered p.now s2) _ h2 in
      cancel_facts-Kept f now c s3 s1 h3 j

  -- A receipt that is replayed is the one that is kept.
  replay-Kept :
      (k : CommandReceipt) (c : Committed) (s s1 : Database D)
      → s.receipts q.command_id ≡ some k
      → replay p q k s ≡ ok (c, s1)
      → Kept c.response s1
  unfolding replay decoded
  replay-Kept k c s s1 there h = elim (Bool-cases (same_command p q k)) [
    | inr other ↦ absurd (ground arith)
    | inl same ↦ elim (Option-cases (p.decode k.response)) [
      | inl broken ↦ absurd (ground arith)
      | inr (r, e) ↦ elim (Bool-cases (receipt_valid r)) [
        | inr bad ↦ absurd (ground arith)
        | inl good ↦
            ok-subst {A = Committed} (λ x y. Kept x.response y)
              {a = record { response = r; wrote_terminal = false; cancel_key = none }} {b = c}
              {s = s} {s' = s1} (ground arith)
              (record { receipt = k; there = there; same = same; response = e })
      ]
    ]
  ]

  pub cancel_work-Kept :
      (c : Committed) (s s1 : Database D)
      → cancel_work p q s ≡ ok (c, s1)
      → ReadBack c.response
      → Kept c.response s1
  unfolding cancel_work
  cancel_work-Kept c s s1 h j = elim (Option-cases (s.receipts q.command_id)) [
    | inl e ↦ cancel_anew-Kept c s s1 (ground arith) j
    | inr (k, e) ↦ replay-Kept k c s s1 e (ground arith)
  ]
