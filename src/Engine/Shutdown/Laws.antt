-- ===== src/Engine/Shutdown/Laws.antt =====
-- What every schedule of jobs and a shutdown keeps.
use docker_analysis.Base.{
  ℕ, zero, suc, ◌+◌, ◌≡◌, ◌⊎◌, inl, Bool, true, false, ◌&&◌, List, [], ◌∷◌, Option, none, some,
  if◌then◌else◌, not, arith, refl, ap, ◌∙◌, ◌≤◌,
}
use docker_analysis.Engine.Shutdown.{
  Phase, called, refused, admitted, counted, working, returned, waiting, handlers_called, Thread,
  System, Event, job_step, call_shutdown, idle, timeout, step_thread, step_at, shut_down,
  stop_waiting, step, run_events,
}

-- Whether the wait group counts the thread.
abbrev pub weight : Thread → ℕ
weight t = elim t.phase [
  | called ↦ 0
  | refused ↦ 0
  | admitted ↦ 0
  | counted ↦ if t.serve_api then 0 else 1
  | working ↦ if t.serve_api then 0 else 1
  | returned ↦ 0
]

abbrev pub active : List Thread → ℕ
active [] = 0
active (t ∷ ts) = weight t + active ts

-- A server of the API skips the phase `counted`.
step_thread-weight :
    (shut : Bool) (n k : ℕ) (t : Thread)
    → n ≡ weight t + k
    → (step_thread shut n t).0 ≡ weight (step_thread shut n t).1 + k
unfolding step_thread
step_thread-weight shut n k t h = ground arith

step_at-active :
    (shut : Bool) (i n k : ℕ) (ts : List Thread)
    → n ≡ active ts + k
    → (step_at shut n i ts).0 ≡ active (step_at shut n i ts).1 + k
unfolding step_at
step_at-active shut i n k [] h = h
step_at-active shut zero n k (t ∷ ts) h =
    let e = step_thread-weight shut n (active ts + k) t (omega (arith, h)) in omega (arith, e)
step_at-active shut (suc i) n k (t ∷ ts) h =
    let e = step_at-active shut i n (weight t + k) ts (omega (arith, h)) in omega (arith, e)

-- The counter of the wait group is the number of the jobs at work, other than a server of the API.
abbrev pub Counts : System → Type 0
Counts s = s.tasks ≡ active s.threads

step-Counts : (e : Event) (s : System) → Counts s → Counts (step e s)
unfolding step shut_down stop_waiting
step-Counts (job_step i) s h =
    let e = step_at-active s.shutdown i s.tasks 0 s.threads (omega (arith, h)) in omega (arith, e)
step-Counts call_shutdown s h = ground arith
step-Counts idle s h = ground arith
step-Counts timeout s h = ground arith

-- Where the counter of the wait group is the number of the jobs at work, other than a server of the
-- API, it is after every schedule.
pub run_events-Counts : (es : List Event) (s : System) → Counts s → Counts (run_events es s)
unfolding run_events
run_events-Counts [] s h = h
run_events-Counts (e ∷ es) s h = run_events-Counts es (step e s) (step-Counts e s h)

abbrev pub phase_at : ℕ → List Thread → Option Phase
phase_at i [] = none
phase_at zero (t ∷ ts) = some t.phase
phase_at (suc i) (t ∷ ts) = phase_at i ts

abbrev Kept : Option Phase → Type 0
Kept p = (p ≡ some called) ⊎ (p ≡ some refused)

step_at-Kept :
    (n i j : ℕ) (ts : List Thread)
    → Kept (phase_at j ts)
    → Kept (phase_at j (step_at true n i ts).1)
unfolding step_at step_thread
step_at-Kept n i j [] h = h
step_at-Kept n zero zero (t ∷ ts) h = ground arith
step_at-Kept n zero (suc j) (t ∷ ts) h = h
step_at-Kept n (suc i) zero (t ∷ ts) h = h
step_at-Kept n (suc i) (suc j) (t ∷ ts) h = step_at-Kept n i j ts h

step-Kept :
    (e : Event) (j : ℕ) (s : System)
    → s.shutdown ≡ true
    → Kept (phase_at j s.threads)
    → ((step e s).shutdown ≡ true) × Kept (phase_at j (step e s).threads)
unfolding step shut_down stop_waiting
step-Kept (job_step i) j s shut h = (shut, rw shut (step_at-Kept s.tasks i j s.threads h))
step-Kept call_shutdown j s shut h = ground arith
step-Kept idle j s shut h = ground arith
step-Kept timeout j s shut h = ground arith

run_events-Kept :
    (es : List Event) (j : ℕ) (s : System)
    → s.shutdown ≡ true
    → Kept (phase_at j s.threads)
    → Kept (phase_at j (run_events es s).threads)
unfolding run_events
run_events-Kept [] j s shut h = h
run_events-Kept (e ∷ es) j s shut h =
    let (shut', h') = step-Kept e j s shut h in run_events-Kept es j (step e s) shut' h'

-- A job that has not looked at the flag when a shutdown begins is never run: whatever the schedule,
-- it has not begun or was refused.
pub refused_after_shutdown :
    (es : List Event) (j : ℕ) (s : System)
    → phase_at j s.threads ≡ some called
    → (phase_at j (run_events es (step call_shutdown s)).threads ≡ some called)
      ⊎ (phase_at j (run_events es (step call_shutdown s)).threads ≡ some refused)
unfolding step shut_down
refused_after_shutdown es j s h =
    let shut : (step call_shutdown s).shutdown ≡ true = ground arith in
    let same : (step call_shutdown s).threads ≡ s.threads = ground arith in
    run_events-Kept es j (step call_shutdown s) shut (inl (ap (phase_at j) same ∙ h))

abbrev pub is_admitted : Thread → Bool
is_admitted t = elim t.phase [
  | called ↦ false
  | refused ↦ false
  | admitted ↦ true
  | counted ↦ false
  | working ↦ false
  | returned ↦ false
]

abbrev pub no_admitted : List Thread → Bool
no_admitted [] = true
no_admitted (t ∷ ts) = not (is_admitted t) && no_admitted ts

step_at-quiet :
    (n i : ℕ) (ts : List Thread)
    → no_admitted ts ≡ true
    → ((step_at true n i ts).0 ≤ n) × (no_admitted (step_at true n i ts).1 ≡ true)
unfolding step_at step_thread
step_at-quiet n i [] h = (omega arith, refl)
step_at-quiet n zero (t ∷ ts) h = ground arith
step_at-quiet n (suc i) (t ∷ ts) h =
    let (low, none_admitted) = step_at-quiet n i ts (ground arith) in (low, ground arith)

record Quiet (s : System) : Type 0 where
  pub shut : s.shutdown ≡ true
  pub none_admitted : no_admitted s.threads ≡ true
  pub waits : (s.waiter ≡ some waiting) ⊎ (s.tasks ≡ 0)

abbrev pub untimed : Event → Bool
untimed (job_step i) = true
untimed call_shutdown = true
untimed idle = true
untimed timeout = false

abbrev pub all_untimed : List Event → Bool
all_untimed [] = true
all_untimed (e ∷ es) = untimed e && all_untimed es

step-Quiet : (e : Event) (s : System) → untimed e ≡ true → Quiet s → Quiet (step e s)
unfolding step shut_down stop_waiting
step-Quiet (job_step i) s u q =
    let (low, quiet) = step_at-quiet s.tasks i s.threads q.none_admitted in
    record {
      shut = q.shut;
      none_admitted = rw q.shut quiet;
      waits = rw q.shut (ground (arith, q.waits));
    }
step-Quiet call_shutdown s u q = record {
  shut = ground (arith, q.shut);
  none_admitted = ground (arith, q.shut, q.none_admitted);
  waits = ground (arith, q.shut, q.waits);
}
step-Quiet idle s u q = record {
  shut = ground (arith, q.shut);
  none_admitted = ground (arith, q.none_admitted);
  waits = ground (arith, q.waits);
}
step-Quiet timeout s u q = absurd (ground arith)

run_events-Quiet :
    (es : List Event) (s : System) → all_untimed es ≡ true → Quiet s → Quiet (run_events es s)
unfolding run_events
run_events-Quiet [] s u q = q
run_events-Quiet (e ∷ es) s u q =
    run_events-Quiet es (step e s) (ground arith) (step-Quiet e s (ground arith) q)

-- The first shutdown of an engine, at a moment when no job stands between its look at the flag and
-- the counter: without the timeout, the shutdown handlers are called only when no job is at work,
-- other than a server of the API, and none is from then on.
pub idle_at_handlers :
    (es : List Event) (s : System)
    → s.tasks ≡ active s.threads
    → s.shutdown ≡ false
    → no_admitted s.threads ≡ true
    → all_untimed es ≡ true
    → (run_events es (step call_shutdown s)).waiter ≡ some handlers_called
    → active (run_events es (step call_shutdown s)).threads ≡ 0
unfolding step shut_down
idle_at_handlers es s counts up quiet untimed_es at_handlers =
    let s₁ = step call_shutdown s in
    let start : Quiet s₁ = record {
      shut = ground arith;
      none_admitted = ground arith;
      waits = ground arith;
    } in
    let q = run_events-Quiet es s₁ untimed_es start in
    let counted_all = run_events-Counts es s₁ (step-Counts call_shutdown s counts) in
    ground (arith, q.waits, counted_all)

abbrev pub thread_at : ℕ → List Thread → Option Thread
thread_at i [] = none
thread_at zero (t ∷ ts) = some t
thread_at (suc i) (t ∷ ts) = thread_at i ts

-- A job that is not "serveapi", past its look at the flag and not counted yet.
abbrev pub passed : Thread
passed = record { serve_api = false; phase = admitted }

late :
    (n : ℕ) (j : ℕ) (ts : List Thread) (k : ℕ)
    → thread_at j ts ≡ some passed
    → phase_at j (step_at true k j (step_at true n j ts).1).1 ≡ some working
unfolding step_at step_thread
late n j [] k h = absurd (ground arith)
late n zero (t ∷ ts) k h = let same : t ≡ passed = ground arith in rw same refl
late n (suc j) (t ∷ ts) k h = late n j ts k h

-- A job other than "serveapi" that has passed the look at the flag when Shutdown is called, on an
-- engine whose count of jobs at work is 0, still gets to its handler after the shutdown handlers have
-- been called, without a timeout.
pub works_after_shutdown :
    (j : ℕ) (s : System)
    → s.shutdown ≡ false
    → s.tasks ≡ 0
    → thread_at j s.threads ≡ some passed
    → ((run_events (call_shutdown ∷ idle ∷ job_step j ∷ job_step j ∷ []) s).waiter
        ≡ some handlers_called)
      × (phase_at j (run_events (call_shutdown ∷ idle ∷ job_step j ∷ job_step j ∷ []) s).threads
          ≡ some working)
unfolding run_events step shut_down stop_waiting
works_after_shutdown j s up free at_j =
    (ground arith, rw (up, free) (late 0 j s.threads (step_at true 0 j s.threads).0 at_j))
