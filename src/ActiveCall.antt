-- ===== src/ActiveCall.antt =====
-- internal/taskruntime/activecall/registry.go: the calls that this process prepares or runs.
--
-- An entry is a pointer, here its number in the order of allocation; a handle belongs to one entry
-- and is named by the same number, and the flag `released` of the entry is the handle's `sync.Once`.
-- A context is the cause with which it was cancelled, if it was. Each operation holds the mutex for
-- all its accesses to the map, so it is one step here; `Cancel` and `CancelAll` fire the cancel
-- functions after they have released the mutex, so these are steps of their own (`fire`).
-- The receivers are initialised: nil registries are not modelled.
pub mod Maps
pub mod Invariant
pub mod Handles
pub mod Cancellation
mod Examples
use agentops_go.Prelude.{
  ℕ, suc, ◌+◌, String, Bool, true, false, not, ◌&&◌, ◌||◌, Option, none, some, List, [], ◌∷◌, ◌==◌,
  if◌then◌else◌, text_eq, is_none,
}
use agentops_go.Contracts.Execution.{
  CheckpointNextAction, ExecutionCancellationCause, execution_version_valid, next_action_valid,
  cancellation_cause_valid,
}

pub data CallState : Type 0 where
  prepared active : CallState

pub record Key : Type 0 where
  pub task_id : String
  pub execution_version : ℕ
  pub worker_id : String

pub record Metadata : Type 0 where
  pub action_kind : CheckpointNextAction
  pub step_id : String
  pub tool_execution_id : String

-- Why a context was cancelled: `frozen` by `Cancel`, `canceled` by `Unregister` (context.Canceled),
-- `inherited` with a parent context.
pub data Cause : Type 0 where
  frozen : ExecutionCancellationCause → Cause
  canceled : Cause
  inherited : String → Cause

abbrev pub Context : Type 0
Context = Option Cause

pub record Entry : Type 0 where
  pub key : Key
  pub metadata : Metadata
  pub state : CallState
  pub ctx : Context
  pub released : Bool

pub record Registry : Type 0 where
  pub entries : List (Key × ℕ)
  pub heap : ℕ → Option Entry
  pub next : ℕ

pub data CallError : Type 0 where
  context_required invalid_key invalid_action step_required : CallError
  duplicate not_prepared invalid_cancellation_cause : CallError

unfoldable pub key_eq : Key → Key → Bool
key_eq a b =
    text_eq a.task_id b.task_id
    && a.execution_version == b.execution_version
    && text_eq a.worker_id b.worker_id

unfoldable pub lookup : Key → List (Key × ℕ) → Option ℕ
lookup k [] = none
lookup k ((j, p) ∷ m) = if key_eq j k then some p else lookup k m

unfoldable pub delete : Key → List (Key × ℕ) → List (Key × ℕ)
delete k [] = []
delete k ((j, p) ∷ m) = if key_eq j k then delete k m else (j, p) ∷ delete k m

abbrev pub update : (ℕ → Option Entry) → ℕ → Option Entry → ℕ → Option Entry
update h p e q = if p == q then e else h q

pub new_registry : Registry
new_registry = record { entries = []; heap = λ p. none; next = 0 }

is_finalize : CheckpointNextAction → Bool
is_finalize CheckpointNextAction.finalize_run = true
is_finalize _ = false

is_generate_plan : CheckpointNextAction → Bool
is_generate_plan CheckpointNextAction.generate_plan = true
is_generate_plan _ = false

unfoldable pub validate : Key → Metadata → Option CallError
unfolding is_finalize is_generate_plan next_action_valid
validate k m =
    if text_eq k.task_id ""
      || not (execution_version_valid k.execution_version)
      || text_eq k.worker_id ""
    then some CallError.invalid_key
    else if not (next_action_valid m.action_kind) || is_finalize m.action_kind
    then some CallError.invalid_action
    else if not (is_generate_plan m.action_kind) && text_eq m.step_id ""
    then some CallError.step_required
    else none

pub data Prepared : Type 0 where
  handle : ℕ → Prepared
  failed : CallError → Prepared

-- `context.WithCancelCause(parent)`: the child is cancelled with its parent.
unfoldable pub prepare : Registry → Option Context → Key → Metadata → Registry × Prepared
prepare r none k m = (r, Prepared.failed CallError.context_required)
prepare r (some parent) k m = elim (validate k m) [
  | some e ↦ (r, Prepared.failed e)
  | none ↦ elim (lookup k r.entries) [
    | some _ ↦ (r, Prepared.failed CallError.duplicate)
    | none ↦ (
      record r {
        entries = (k, r.next) ∷ r.entries;
        heap = update r.heap r.next (
            some (record {
              key = k;
              metadata = m;
              state = CallState.prepared;
              ctx = parent;
              released = false;
            }));
        next = suc r.next;
      },
      Prepared.handle r.next,
    )
  ]
]

is_prepared : CallState → Bool
is_prepared CallState.prepared = true
is_prepared CallState.active = false

same_pointer : Option ℕ → ℕ → Bool
same_pointer none p = false
same_pointer (some q) p = q == p

-- A nil handle is `none`; so is one with no entry behind it.
unfoldable pub activate : Registry → Option ℕ → Registry × Option CallError
unfolding is_prepared same_pointer
activate r none = (r, some CallError.not_prepared)
activate r (some p) = elim (r.heap p) [
  | none ↦ (r, some CallError.not_prepared)
  | some e ↦
      if not (same_pointer (lookup e.key r.entries) p) || not (is_prepared e.state)
      then (r, some CallError.not_prepared)
      else (
        record r { heap = update r.heap p (some (record e { state = CallState.active })) },
        none,
      )
]

-- The first cancellation of a context sets its cause; later ones do nothing.
abbrev pub cancel_context : Context → Cause → Context
cancel_context none c = some c
cancel_context (some d) c = some d

-- A cancel function that is called with a cause.
unfoldable pub fire : Registry → ℕ → Cause → Registry
fire r p c = elim (r.heap p) [
  | none ↦ r
  | some e ↦ record r { heap = update r.heap p (some (record e { ctx = cancel_context e.ctx c })) }
]

unfoldable pub unregister : Registry → Option ℕ → Registry
unfolding same_pointer
unregister r none = r
unregister r (some p) = elim (r.heap p) [
  | none ↦ r
  | some e ↦ if e.released then r else record r {
    entries = if same_pointer (lookup e.key r.entries) p then delete e.key r.entries else r.entries;
    heap =
        update r.heap p
          (some (record e { released = true; ctx = cancel_context e.ctx Cause.canceled }));
  }
]

unfoldable pub cancel :
    Registry → Key → ExecutionCancellationCause → Registry × (Bool × Option CallError)
unfolding cancellation_cause_valid
cancel r k c =
    if not (cancellation_cause_valid c)
    then (r, (false, some CallError.invalid_cancellation_cause))
    else elim (lookup k r.entries) [
      | none ↦ (r, (false, none))
      | some p ↦ (fire r p (Cause.frozen c), (true, none))
    ]

unfoldable pub fire_all : Registry → List (Key × ℕ) → Cause → Registry
fire_all r [] c = r
fire_all r ((k, p) ∷ m) c = fire_all (fire r p c) m c

unfoldable pub cancel_all : Registry → ExecutionCancellationCause → Registry × Option CallError
unfolding cancellation_cause_valid
cancel_all r c =
    if not (cancellation_cause_valid c)
    then (r, some CallError.invalid_cancellation_cause)
    else (fire_all r r.entries (Cause.frozen c), none)

unfoldable pub state : Registry → Key → Option CallState
state r k = elim (lookup k r.entries) [
  | none ↦ none
  | some p ↦ elim (r.heap p) [ none ↦ none | some e ↦ some e.state ]
]
