-- ===== src/Engine/Shutdown.antt =====
-- engine/engine.go `Shutdown` and engine/job.go `Run` as threads that interleave. A schedule is a
-- list of steps, each of which is one the code takes without giving way: the flag and the counter
-- are touched under the engine's lock. A job is its place in the list.
pub mod Laws
use docker_analysis.Base.{
  ℕ, zero, suc, ◌+◌, ◌≡◌, Bool, true, false, ◌&&◌, ◌||◌, List, [], ◌∷◌, ◌++◌, Option, none, some,
  if◌then◌else◌, nat_beq, not,
}
use Prim.Native.Nat.{◌-◌}

-- Where a call of `Run` stands: before it looks at the flag; refused; past the flag; counted by the
-- wait group; its handler at work; over.
pub data Phase : Type 0 where
  called refused admitted counted working returned : Phase

-- Where a call of `Shutdown` stands: it waits for the jobs; it has called the shutdown handlers.
pub data Waiter : Type 0 where
  waiting handlers_called : Waiter

pub record Thread : Type 0 where
  pub serve_api : Bool
  pub phase : Phase

-- `shutdown` is the engine's flag, and `waiter` the one call of `Shutdown` that set it.
pub record System : Type 0 where
  pub shutdown : Bool
  pub tasks : ℕ
  pub threads : List Thread
  pub waiter : Option Waiter

-- `job_step i` is the next step of a job. The wait of `Shutdown` ends on an idle engine, or after
-- five seconds.
pub data Event : Type 0 where
  job_step : ℕ → Event
  call_shutdown idle timeout : Event

abbrev pub to : Phase → Thread → Thread
to p t = record t { phase = p }

-- The counter and the thread after its next step.
unfoldable pub step_thread : Bool → ℕ → Thread → ℕ × Thread
step_thread shut tasks t = elim t.phase [
  | called ↦ (tasks, to (if shut then refused else admitted) t)
  | refused ↦ (tasks, t)
  | admitted ↦ if t.serve_api then (tasks, to working t) else (suc tasks, to counted t)
  | counted ↦ (tasks, to working t)
  | working ↦ (if t.serve_api then tasks else tasks - 1, to returned t)
  | returned ↦ (tasks, t)
]

unfoldable pub step_at : Bool → ℕ → ℕ → List Thread → ℕ × List Thread
unfolding step_thread
step_at shut tasks i [] = (tasks, [])
step_at shut tasks zero (t ∷ ts) = let (n, t') = step_thread shut tasks t in (n, t' ∷ ts)
step_at shut tasks (suc i) (t ∷ ts) = let (n, ts') = step_at shut tasks i ts in (n, t ∷ ts')

-- A second call of `Shutdown` returns at once.
unfoldable pub shut_down : System → System
shut_down s = if s.shutdown then s else record s { shutdown = true; waiter = some waiting }

unfoldable pub stop_waiting : System → System
stop_waiting s = elim s.waiter [
  | some waiting ↦ record s { waiter = some handlers_called }
  | some handlers_called ↦ s
  | none ↦ s
]

unfoldable pub step : Event → System → System
unfolding step_at shut_down stop_waiting
step (job_step i) s =
    let (n, ts) = step_at s.shutdown s.tasks i s.threads in record s { tasks = n; threads = ts }
step call_shutdown s = shut_down s
step idle s = if nat_beq s.tasks 0 then stop_waiting s else s
step timeout s = stop_waiting s

unfoldable pub run_events : List Event → System → System
unfolding step
run_events [] s = s
run_events (e ∷ es) s = run_events es (step e s)
