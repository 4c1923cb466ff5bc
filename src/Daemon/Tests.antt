-- ===== src/Daemon/Tests.antt =====
-- The theorems on states and monitors at concrete histories.
use docker_analysis.Base.{
  ℕ, suc, ◌+◌, ◌*◌, ◌^◌, ◌≤◌, ◌<◌, ◌≡◌, ◌≢◌, ◌↔◌, Bool, true, false, List, [], ◌∷◌, Option, none,
  some, arith, refl, inl, inr, length, Str, codes, str_eq,
}
use docker_analysis.Base.Int.{pos}
use docker_analysis.Daemon.State.{State, new_state, set_running, set_restarting}
use docker_analysis.Daemon.State.Reach.{Call, Inv, history, history_safe}
use docker_analysis.Daemon.State.Reach as Reach
use docker_analysis.Daemon.Monitor.{
  RestartPolicy, Monitor, new_monitor, Round, returned, again, running_on, round, loop,
  should_restart,
}
use docker_analysis.Daemon.Monitor as Monitoring
use docker_analysis.Daemon.Monitor.Policy.{Restarts, should_restart_iff}
use docker_analysis.Daemon.Monitor.Loop.{stop_is_final, on_failure_bounded}

abbrev running_state : State
running_state = record new_state {
  running = true;
  pid = 42;
  started_at = 5;
  wait_chan = 1;
  closed = 0 ∷ [];
  next_chan = 2;
}

abbrev stopped_state : State
stopped_state = record running_state {
  running = false;
  pid = 0;
  finished_at = 9;
  exit_code = pos 3;
  wait_chan = 2;
  closed = 1 ∷ 0 ∷ [];
  next_chan = 3;
}

abbrev restarting_state : State
restarting_state = record running_state {
  restarting = true;
  pid = 0;
  finished_at = 9;
  exit_code = pos 3;
  wait_chan = 2;
  closed = 1 ∷ 0 ∷ [];
  next_chan = 3;
}

history_safe_example :
    (s : State) × (history
        (Reach.runs 5 42 ∷ Reach.restarts 9 (pos 3) ∷ Reach.stops 10 (pos 3) ∷ [])
        new_state
      ≡ some s)
    × Inv s
history_safe_example =
    history_safe (Reach.runs 5 42 ∷ Reach.restarts 9 (pos 3) ∷ Reach.stops 10 (pos 3) ∷ [])

abbrev twice : RestartPolicy
twice = record { name = codes "on-failure"; maximum_retry_count = pos 2 }

abbrev no_restart : RestartPolicy
no_restart = record { name = codes "no"; maximum_retry_count = pos 0 }

abbrev failing : Round
failing = record {
  log_fails = false;
  started = some 42;
  run_fails = false;
  exit_status = pos 3;
  execution_time = 1;
  now = 5;
  stop_while_running = false;
  stop_while_waiting = false;
}

-- After one round of `failing`.
abbrev once_failed : RestartPolicy → State → Monitor
once_failed policy state = record (new_monitor state policy) {
  failure_count = 1;
  start_signal_closed = true;
  time_increment = 200;
  restart_count = pos 1;
  trace = Monitoring.start ∷ Monitoring.die ∷ Monitoring.reset_container ∷ [];
}

should_restart_iff_example :
    (should_restart (pos 3) (new_monitor new_state twice) ≡ true)
    ↔ Restarts (pos 3) (new_monitor new_state twice)
should_restart_iff_example = should_restart_iff (pos 3) (new_monitor new_state twice)

on_failure_bounded_example : length (failing ∷ []) + 0 ≤ 1
unfolding loop round should_restart set_running set_restarting docker_analysis.Base.Keys.contains
    docker_analysis.Base.str_beq Monitoring.callback Monitoring.reset_monitor
on_failure_bounded_example =
    on_failure_bounded (failing ∷ []) (new_monitor new_state twice)
      (once_failed twice (record restarting_state { finished_at = 5 })) 1 refl (omega arith) refl

-- A stop comes while the monitor waits for the next restart.
abbrev stopped_in_wait : Round
stopped_in_wait = record failing { stop_while_waiting = true }

stop_is_final_example :
    (loop (stopped_in_wait ∷ failing ∷ []) (new_monitor new_state twice)
      ≡ loop (stopped_in_wait ∷ []) (new_monitor new_state twice))
    × (loop (stopped_in_wait ∷ failing ∷ []) (new_monitor new_state twice)
        ≢ some (running_on (new_monitor new_state twice)))
stop_is_final_example =
    stop_is_final stopped_in_wait (failing ∷ []) (new_monitor new_state twice)
      (new_monitor new_state twice) (inr (inr refl))
