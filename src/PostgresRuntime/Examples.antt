-- ===== src/PostgresRuntime/Examples.antt =====
-- internal/adapter/postgres/runtime/runtime.go and write.go: a writer and a lost connection.
use agentops_go.Prelude.{true, false, ◌≡◌, refl}
use agentops_go.PostgresRuntime.{
  opened, LifecycleState, require_accepting_writes, admit_write, try_acquire_gate, begin_waiting,
  mark_lost, report_failure,
}
use agentops_go.PostgresRuntime.Schedule.{World, initial, Step, Steps}
use agentops_go.PostgresRuntime.Exclusive.{Serial, reachable-Serial}
use agentops_go.PostgresRuntime.Sealed.{Sealed, Steps-Sealed}
use agentops_go.PostgresRuntime.Failure.{Reported, reachable-Reported}

-- One writer has been admitted by TryExecute.
abbrev checked_world : World
checked_world = record initial { checked = 1 }

abbrev holding_world : World
holding_world = record initial { runtime = record opened { gate = 0 }; holding_writers = 1 }

abbrev admitted_world : World
admitted_world = record holding_world { holding_writers = 0; admitted = 1 }

writing : Steps initial admitted_world
unfolding require_accepting_writes try_acquire_gate admit_write
writing =
    Steps.then initial holding_world admitted_world
      (Steps.then initial checked_world holding_world
        (Steps.then initial initial checked_world (Steps.done initial) (Step.check initial refl))
        (Step.writer_tries checked_world 0 (record opened { gate = 0 }) refl refl))
      (Step.admit holding_world 0 refl refl)

reachable-Serial_example : Serial admitted_world
reachable-Serial_example = reachable-Serial admitted_world writing

-- The Host stops the writes while the transaction runs, and another goroutine waits.
abbrev stopped_world : World
stopped_world = record admitted_world {
  runtime = record opened { gate = 0; accepting_writes = false };
}

abbrev waiting_world : World
waiting_world = record stopped_world {
  runtime = record opened { gate = 0; accepting_writes = false; gate_waiters = 1 };
  waiting_others = 1;
}

waiting : Steps stopped_world waiting_world
unfolding begin_waiting
waiting =
    Steps.then stopped_world stopped_world waiting_world (Steps.done stopped_world)
      (Step.other_waits stopped_world)

stopped : require_accepting_writes stopped_world.runtime ≡ false
unfolding require_accepting_writes
stopped = refl

Steps-Sealed_example : Sealed 1 waiting_world
Steps-Sealed_example = Steps-Sealed stopped_world waiting_world waiting stopped

-- The monitor finds the lock lost, and its failure is sent.
abbrev losing_world : World
losing_world = record admitted_world { losing = 1 }

abbrev lost_world : World
lost_world = record admitted_world {
  runtime = record opened { gate = 0; state = LifecycleState.lost; accepting_writes = false };
  reporting = 1;
}

abbrev reported_world : World
reported_world = record admitted_world {
  runtime = record opened {
    gate = 0;
    state = LifecycleState.lost;
    accepting_writes = false;
    failure = true;
    failures = 1;
  };
}

losing : Steps initial reported_world
unfolding mark_lost report_failure
losing =
    Steps.then initial lost_world reported_world
      (Steps.then initial losing_world lost_world
        (Steps.then initial admitted_world losing_world writing (Step.miss admitted_world))
        (Step.lose losing_world 0 lost_world.runtime refl refl))
      (Step.report lost_world 0 refl)

reachable-Reported_example : Reported reported_world
reachable-Reported_example = reachable-Reported reported_world losing
