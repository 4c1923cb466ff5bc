-- ===== src/Daemon/State.antt =====
-- daemon/state.go: the running state of a container. Each method runs under the state's own lock,
-- so it is a step. The time of day is an argument, and 0 is Go's zero time. A channel is a number;
-- `close` records it, and closing it twice is a panic.
pub mod Reach
pub mod Wait
use docker_analysis.Base.{
  ℕ, zero, suc, ◌+◌, ◌≡◌, Bool, true, false, List, [], ◌∷◌, Option, none, some, if◌then◌else◌,
  nat_eq,
}
use docker_analysis.Base.Int.{ℤ, pos, negsuc}
use docker_analysis.Base.Keys.{contains}

pub record State : Type 0 where
  pub running : Bool
  pub paused : Bool
  pub restarting : Bool
  pub pid : ℕ
  pub exit_code : ℤ
  pub started_at : ℕ
  pub finished_at : ℕ
  pub wait_chan : ℕ
  -- The channels of this state that are closed, and the number of the next `make`.
  pub closed : List ℕ
  pub next_chan : ℕ

abbrev pub new_state : State
new_state = record {
  running = false;
  paused = false;
  restarting = false;
  pid = 0;
  exit_code = pos 0;
  started_at = 0;
  finished_at = 0;
  wait_chan = 0;
  closed = [];
  next_chan = 1;
}

-- `close(s.waitChan); s.waitChan = make(chan struct{})`: `none` is the panic.
unfoldable pub renew_chan : State → Option State
unfolding contains
renew_chan s =
    if contains s.closed s.wait_chan
    then none
    else some (record s {
      closed = s.wait_chan ∷ s.closed;
      wait_chan = s.next_chan;
      next_chan = suc s.next_chan;
    })

unfoldable pub set_running : ℕ → ℕ → State → Option State
unfolding renew_chan
set_running now pid s = renew_chan (record s {
  running = true;
  paused = false;
  restarting = false;
  exit_code = pos 0;
  pid = pid;
  started_at = now;
})

unfoldable pub set_stopped : ℕ → ℤ → State → Option State
unfolding renew_chan
set_stopped now exit_code s = renew_chan (record s {
  running = false;
  restarting = false;
  pid = 0;
  finished_at = now;
  exit_code = exit_code;
})

unfoldable pub set_restarting : ℕ → ℤ → State → Option State
unfolding renew_chan
set_restarting now exit_code s = renew_chan (record s {
  running = true;
  restarting = true;
  pid = 0;
  finished_at = now;
  exit_code = exit_code;
})

abbrev pub set_paused : State → State
set_paused s = record s { paused = true }

abbrev pub set_unpaused : State → State
set_unpaused s = record s { paused = false }

-- What a waiter does before it blocks: it returns a result, or takes a channel.
pub data Begun (A : Type 0) : Type 0 where
  returns : A → Begun A
  waits_on : ℕ → Begun A

unfoldable pub begin_wait_running : State → Begun ℕ
begin_wait_running s = if s.running then returns s.pid else waits_on s.wait_chan

unfoldable pub begin_wait_stop : State → Begun ℤ
begin_wait_stop s = if s.running then waits_on s.wait_chan else returns s.exit_code

-- What `wait` and the code after it do when the waiter is scheduled at a later state: `none` while
-- it blocks. `timer` tells that the `select` takes the time-out, which it may as soon as the time
-- is up, also when the channel is closed.
pub data Woken (A : Type 0) : Type 0 where
  done : A → Woken A
  timed_out : Woken A

unfoldable pub end_wait_running : ℕ → Bool → State → Option (Woken ℕ)
end_wait_running c timer s =
    if timer then some timed_out else if contains s.closed c then some (done s.pid) else none

unfoldable pub end_wait_stop : ℕ → Bool → State → Option (Woken ℤ)
end_wait_stop c timer s =
    if timer then some timed_out else if contains s.closed c then some (done s.exit_code) else none
