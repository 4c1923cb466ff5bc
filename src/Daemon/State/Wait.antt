-- ===== src/Daemon/State/Wait.antt =====
-- What a caller of `WaitStop` and `WaitRunning` learns.
use docker_analysis.Base.{ℕ, ◌≡◌, true, false, some, arith, nat_eq}
use docker_analysis.Base.Int.{ℤ}
use docker_analysis.Daemon.State.{
  State, set_running, set_stopped, set_restarting, waits_on, done, begin_wait_running,
  begin_wait_stop, end_wait_running, end_wait_stop,
}

-- A caller that blocked in `WaitStop` and is woken by the next `SetStopped`, not by its time-out,
-- returns the exit code that was passed to it, and the container is stopped.
pub wait_stop-set_stopped :
    (s t : State) (c now : ℕ) (code : ℤ)
    → begin_wait_stop s ≡ waits_on c
    → set_stopped now code s ≡ some t
    → (end_wait_stop c false t ≡ some (done code)) × (t.running ≡ false)
unfolding begin_wait_stop set_stopped end_wait_stop
wait_stop-set_stopped s t c now code b h = ground arith

-- A caller that blocked in `WaitStop` is woken by `SetRestarting` too: it returns the exit code
-- although the container still counts as running.
pub wait_stop-set_restarting :
    (s t : State) (c now : ℕ) (code : ℤ)
    → begin_wait_stop s ≡ waits_on c
    → set_restarting now code s ≡ some t
    → (end_wait_stop c false t ≡ some (done code)) × (t.running ≡ true)
unfolding begin_wait_stop set_restarting end_wait_stop
wait_stop-set_restarting s t c now code b h = ground arith

-- A caller that blocked in `WaitRunning` and is woken by the next `SetRunning`, not by its
-- time-out, returns the process id, and the container runs.
pub wait_running-set_running :
    (s t : State) (c now pid : ℕ)
    → begin_wait_running s ≡ waits_on c
    → set_running now pid s ≡ some t
    → (end_wait_running c false t ≡ some (done pid)) × (t.running ≡ true)
unfolding begin_wait_running set_running end_wait_running
wait_running-set_running s t c now pid b h = ground arith
