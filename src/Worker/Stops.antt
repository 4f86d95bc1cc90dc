-- ===== src/Worker/Stops.antt =====
-- When the Worker loop returns, and with what.
use agentops_go.Prelude.{◌≡◌, Bool, true, false, List, ◌∷◌, arith, ◌↔◌, ◌⊎◌, is_none}
use agentops_go.Worker.{
  Worker, Round, Exit, ContextView, StopCause, PortError, turn, loop, port_error,
}

-- The process context was stopped by the Host: a shutdown or a lost lock.
abbrev pub HostStop : ContextView → Type 0
HostStop ctx =
    (ctx ≡ ContextView.done StopCause.runtime_shutdown)
    ⊎ (ctx ≡ ContextView.done StopCause.lock_lost)

-- An error of the port is swallowed exactly when it came without a result, is a cancellation, and
-- the Host has stopped the process context.
pub port_error-stopped :
    (ctx : ContextView) (has_result : Bool) (e : PortError)
    → (port_error ctx has_result e ≡ Exit.stopped)
      ↔ ((has_result ≡ false) × ((e.canceled ≡ true) ⊎ (e.deadline_exceeded ≡ true)) × HostStop ctx)
unfolding port_error
port_error-stopped ContextView.live b e = (λ h. ground arith, λ h. ground arith)
port_error-stopped (ContextView.done c) b e = (λ h. ground arith, λ h. ground arith)

-- Once a turn ends with the context done, the loop ends with that turn: no call follows.
pub loop_done :
    (w : Worker) (t : Round) (ts : List Round) (c : StopCause)
    → t.end_context ≡ ContextView.done c
    → ((loop w (t ∷ ts)).0 ≡ (turn w t).0) × (is_none (loop w (t ∷ ts)).1 ≡ false)
unfolding loop turn
loop_done w t ts c h = ground arith
