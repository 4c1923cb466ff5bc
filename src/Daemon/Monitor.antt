-- ===== src/Daemon/Monitor.antt =====
-- daemon/monitor.go: the restart loop of a container. What the loop meets outside, round after
-- round, is an argument: whether the log opens, how `daemon.Run` ends, whether a user asks for a
-- stop. The clean-up of pipes, network and mounts stands as an event of the trace. The container's
-- lock, which only decides how the deferred `Close` is entered, is not modelled.
pub mod Policy
pub mod Loop
use docker_analysis.Base.{
  ℕ, zero, suc, ◌+◌, ◌*◌, ◌%◌, ◌<◌, ◌≡◌, Bool, true, false, not, ◌&&◌, List, [], ◌∷◌, ◌++◌, Option,
  none, some, ltb, leb, if◌then◌else◌, ◌==◌, str_eq, Str, codes,
}
use docker_analysis.Base.Int.{ℤ, pos, negsuc, is_zero, inc}
use docker_analysis.Daemon.State.{State, set_running, set_stopped, set_restarting}

abbrev pub default_time_increment : ℕ
default_time_increment = 100

-- `runconfig.RestartPolicy`
pub record RestartPolicy : Type 0 where
  pub name : Str
  pub maximum_retry_count : ℤ

pub data Event : Type 0 where
  start die reset_container close : Event

pub record Monitor : Type 0 where
  pub policy : RestartPolicy
  pub failure_count : ℕ
  pub should_stop : Bool
  -- How often `stopChan` has been closed; a second time is a panic.
  pub stop_closes : ℕ
  pub start_signal_closed : Bool
  pub time_increment : ℕ
  pub restart_count : ℤ
  pub state : State
  pub trace : List Event

abbrev pub new_monitor : State → RestartPolicy → Monitor
new_monitor state policy = record {
  policy = policy;
  failure_count = 0;
  should_stop = false;
  stop_closes = 0;
  start_signal_closed = false;
  time_increment = default_time_increment;
  restart_count = pos 0;
  state = state;
  trace = [];
}

unfoldable pub exit_on_next : Monitor → Monitor
exit_on_next m =
    if m.should_stop then m else record m { should_stop = true; stop_closes = suc m.stop_closes }

-- `timeIncrement` is an `int` of 64 bits; ten seconds are counted in nanoseconds.
unfoldable pub reset_monitor : ℕ → Bool → Monitor → Monitor
reset_monitor execution_time successful m = record m {
  time_increment =
      if ltb 10_000_000_000 execution_time
      then default_time_increment
      else (m.time_increment * 2) % 0x1_0000_0000_0000_0000;
  failure_count = if successful then 0 else suc m.failure_count;
}

-- `max != 0 && m.failureCount >= max`
abbrev pub retries_used_up : ℤ → ℕ → Bool
retries_used_up (pos zero) failures = false
retries_used_up (pos (suc n)) failures = leb (suc n) failures
retries_used_up (negsuc n) failures = true

unfoldable pub should_restart : ℤ → Monitor → Bool
should_restart exit_status m =
    if m.should_stop
    then false
    else if m.policy.name == codes "always"
    then true
    else if m.policy.name == codes "on-failure"
    then (if retries_used_up m.policy.maximum_retry_count m.failure_count
        then false
        else not (is_zero exit_status))
    else false

-- What one round of the loop meets.
pub record Round : Type 0 where
  pub log_fails : Bool
  -- The process id, if the exec driver reached its start callback.
  pub started : Option ℕ
  pub run_fails : Bool
  pub exit_status : ℤ
  pub execution_time : ℕ
  pub now : ℕ
  pub stop_while_running : Bool
  pub stop_while_waiting : Bool

abbrev pub log_event : Event → Monitor → Monitor
log_event e m = record m { trace = m.trace ++ e ∷ [] }

abbrev pub requested : Bool → Monitor → Monitor
requested asked m = if asked then exit_on_next m else m

abbrev pub in_state : (State → Option State) → Monitor → Option Monitor
in_state f m = elim (f m.state) [ none ↦ none | some s ↦ some (record m { state = s }) ]

-- The callback: the state is running, and the start signal is closed unless it is already.
unfoldable pub callback : ℕ → Option ℕ → Monitor → Option Monitor
callback now none m = some m
callback now (some pid) m = in_state (set_running now pid) (record m { start_signal_closed = true })

-- `returned e` has an error if `e` is true; after `again` the loop goes on. `none` is a panic.
pub data Control : Type 0 where
  returned : Bool → Control
  again : Control

infixl 5 ◌>>=◌
abbrev ◌>>=◌ {ℓ} : {A B : Type ℓ} → Option A → (A → Option B) → Option B
none >>= f = none
some a >>= f = f a

abbrev leave : Bool → Monitor → Control × Monitor
leave error m = (returned error, m)

abbrev finish : Round → Monitor → Option Monitor
finish r m = in_state (set_stopped r.now r.exit_status) m

-- From `SetRestarting` to `continue`.
unfoldable pub restart : Round → Monitor → Option (Control × Monitor)
restart r m = do
  m₁ ← in_state (set_restarting r.now r.exit_status) m
  let m₂ = requested r.stop_while_waiting (log_event reset_container (log_event die m₁))
  if m₂.should_stop
      then (do m₃ ← finish r m₂; some (returned r.run_fails, m₃))
      else some (again, m₂)

-- From `resetMonitor` to the end of the round.
unfoldable pub after_run : Round → Monitor → Option (Control × Monitor)
unfolding restart
after_run r m =
    let m₁ =
      reset_monitor r.execution_time (not r.run_fails && is_zero r.exit_status)
        (requested r.stop_while_running m) in
    if should_restart r.exit_status m₁ then restart r m₁ else (do
      m₂ ← finish r m₁
      some (returned r.run_fails, log_event reset_container (log_event die m₂)))

unfoldable pub round : Round → Monitor → Option (Control × Monitor)
unfolding after_run
round r m =
    let m₁ = record m { restart_count = inc m.restart_count } in
    if r.log_fails then some (returned true, log_event reset_container m₁) else (do
      m₂ ← callback r.now r.started (log_event start m₁)
      if r.run_fails && is_zero m₂.restart_count
          then some (returned true, log_event reset_container m₂)
          else after_run r m₂)

-- How `Start` stands after the given rounds: it has returned, having closed the container's
-- resources, or it is about to begin another round.
pub data Progress : Type 0 where
  ended : Bool → Monitor → Progress
  running_on : Monitor → Progress

unfoldable pub loop : List Round → Monitor → Option Progress
loop [] m = some (running_on m)
loop (r ∷ rs) m = elim (round r m) [
  | none ↦ none
  | some (returned error, m') ↦ some (ended error (log_event close m'))
  | some (again, m') ↦ loop rs m'
]

unfoldable pub start_monitor : List Round → Monitor → Option Progress
unfolding loop
start_monitor rs m = loop rs (record m { restart_count = negsuc 0 })
