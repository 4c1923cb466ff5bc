-- ===== src/Daemon/Monitor/Loop.antt =====
-- Runs of the restart loop.
use docker_analysis.Base.{
  ℕ, suc, ◌+◌, ◌≤◌, ◌<◌, ◌≡◌, ◌≢◌, ◌⊎◌, inl, inr, Bool, true, false, not, ◌&&◌, List, [], ◌∷◌,
  Option, none, some, arith, if◌then◌else◌, str_eq, codes, length, Bool-cases, Option-cases, sym,
  ◌∙◌,
}
use docker_analysis.Base.Int.{ℤ, pos, is_zero, inc}
use docker_analysis.Daemon.State.{State, set_running, set_stopped, set_restarting}
use docker_analysis.Daemon.Monitor.{
  Monitor, start, die, reset_container, log_event, Round, returned, again, running_on,
  should_restart, exit_on_next, reset_monitor, requested, in_state, callback, restart, after_run,
  round, loop,
}
use docker_analysis.Daemon.Monitor.Policy.{should_restart_iff}

restart-again :
    (r : Round) (m m' : Monitor)
    → restart r m ≡ some (again, m')
    → (m'.should_stop ≡ false)
      × (m'.failure_count ≡ m.failure_count)
      × (m'.policy ≡ m.policy)
      × (r.stop_while_waiting ≡ false)
unfolding restart exit_on_next
restart-again r m m' h = elim (Option-cases (set_restarting r.now r.exit_status m.state)) [
  | inl e ↦ absurd (ground (arith, e))
  | inr (s, e) ↦ ground (arith, e)
]

-- What holds when a round ends in another.
pub record Goes (r : Round) (m m' : Monitor) : Type 0 where
  pub unasked : m.should_stop ≡ false
  pub not_while_running : r.stop_while_running ≡ false
  pub not_while_waiting : r.stop_while_waiting ≡ false
  pub still_unasked : m'.should_stop ≡ false
  pub policy : m'.policy ≡ m.policy
  pub failures :
      m'.failure_count
      ≡ (if not r.run_fails && is_zero r.exit_status then 0 else suc m.failure_count)
  pub decided : should_restart r.exit_status m' ≡ true

requested_quiet :
    (asked : Bool) (m : Monitor)
    → (requested asked m).should_stop ≡ false
    → (asked ≡ false) × (m.should_stop ≡ false)
unfolding exit_on_next
requested_quiet asked m h = ground arith

should_restart-same :
    (status : ℤ) (m m' : Monitor)
    → m'.should_stop ≡ m.should_stop
    → m'.policy ≡ m.policy
    → m'.failure_count ≡ m.failure_count
    → should_restart status m' ≡ should_restart status m
unfolding should_restart
should_restart-same status m m' s p f = rw (s, p, f)

after_run-again : (r : Round) (m m' : Monitor) → after_run r m ≡ some (again, m') → Goes r m m'
unfolding after_run reset_monitor
after_run-again r m m' h =
    let m₁ =
      reset_monitor r.execution_time (not r.run_fails && is_zero r.exit_status)
        (requested r.stop_while_running m) in
    elim (Bool-cases (should_restart r.exit_status m₁)) [
      | inl go ↦
          let step : restart r m₁ ≡ some (again, m') = rw go at h in
          let (a, b, c, d) = restart-again r m₁ m' step in
          let unasked : m₁.should_stop ≡ false = ((should_restart_iff r.exit_status m₁).0 go).0 in
          let (e, f) = requested_quiet r.stop_while_running m unasked in
          record {
            unasked = f;
            not_while_running = e;
            not_while_waiting = d;
            still_unasked = a;
            policy = ground arith;
            failures = ground arith;
            decided = should_restart-same r.exit_status m₁ m' (a ∙ sym unasked) c b ∙ go;
          }
      | inr stop ↦ absurd (ground (arith, Option-cases (set_stopped r.now r.exit_status m₁.state)))
    ]

callback-keeps :
    (now : ℕ) (p : Option ℕ) (m m' : Monitor)
    → callback now p m ≡ some m'
    → (m'.should_stop ≡ m.should_stop)
      × (m'.failure_count ≡ m.failure_count)
      × (m'.policy ≡ m.policy)
unfolding callback
callback-keeps now none m m' h = ground arith
callback-keeps now (some pid) m m' h = elim (Option-cases (set_running now pid m.state)) [
  | inl e ↦ absurd (ground (arith, e))
  | inr (s, e) ↦ ground (arith, e)
]

-- A round that ends in another was not asked to stop, at any time before its end, and its exit was
-- one that the policy restarts.
pub round-again : (r : Round) (m m' : Monitor) → round r m ≡ some (again, m') → Goes r m m'
unfolding round
round-again r m m' h =
    let m₁ = log_event start (record m { restart_count = inc m.restart_count }) in
    elim (Option-cases (callback r.now r.started m₁)) [
      | inl e ↦ absurd (ground (arith, e))
      | inr (m₂, e) ↦
          let step : after_run r m₂ ≡ some (again, m') = ground (arith, e) in
          let g = after_run-again r m₂ m' step in
          let (a, b, c) = callback-keeps r.now r.started m₁ m₂ e in
          record {
            unasked = sym a ∙ g.unasked;
            not_while_running = g.not_while_running;
            not_while_waiting = g.not_while_waiting;
            still_unasked = g.still_unasked;
            policy = g.policy ∙ c;
            failures = ground (arith, g.failures);
            decided = g.decided;
          }
    ]

-- A stop that is asked for at any time up to the end of a round.
abbrev pub AskedBy : Round → Monitor → Type 0
AskedBy r m = (m.should_stop ≡ true) ⊎ (r.stop_while_running ≡ true) ⊎ (r.stop_while_waiting ≡ true)

asked_last : (r : Round) (m m' : Monitor) → AskedBy r m → round r m ≢ some (again, m')
asked_last r m m' (inl asked) h = absurd (cc ((round-again r m m' h).unasked))
asked_last r m m' (inr (inl asked)) h = absurd (cc ((round-again r m m' h).not_while_running))
asked_last r m m' (inr (inr asked)) h = absurd (cc ((round-again r m m' h).not_while_waiting))

-- When a stop is asked for before a round, while its container runs, or during the wait after it,
-- the monitor begins no further round: the loop is as if no round came after that one, and it has
-- returned or panicked by its end.
pub stop_is_final :
    (r : Round) (rs : List Round) (m m' : Monitor)
    → AskedBy r m
    → (loop (r ∷ rs) m ≡ loop (r ∷ []) m) × (loop (r ∷ rs) m ≢ some (running_on m'))
unfolding loop
stop_is_final r rs m m' asked = elim (Option-cases (round r m)) [
  | inl e ↦ (ground (arith, e), λ h. absurd (ground (arith, e)))
  | inr ((returned error, m₁), e) ↦ (ground (arith, e), λ h. absurd (ground (arith, e)))
  | inr ((again, m₁), e) ↦ absurd (asked_last r m m₁ asked e)
]

on_failure-Goes :
    (r : Round) (m m' : Monitor) (n : ℕ)
    → m.policy ≡ record { name = codes "on-failure"; maximum_retry_count = pos (suc n) }
    → Goes r m m'
    → (m'.failure_count ≡ suc m.failure_count) × (m'.failure_count ≤ n)
on_failure-Goes r m m' n p g = by_policy (((should_restart_iff r.exit_status m').0 g.decided).1)
  where
    by_policy :
        ((m'.policy.name ≡ codes "always")
          ⊎ (m'.policy.name ≡ codes "on-failure")
            × (is_zero r.exit_status ≡ false)
            × ((m'.policy.maximum_retry_count ≡ pos 0)
                ⊎ ((k : ℕ) × (m'.policy.maximum_retry_count ≡ pos k) × (m'.failure_count < k))))
        → (m'.failure_count ≡ suc m.failure_count) × (m'.failure_count ≤ n)
    by_policy (inl e) = absurd (ground (arith, g.policy))
    by_policy (inr (_, s, inl z)) = absurd (ground (arith, g.policy))
    by_policy (inr (_, s, inr (k, e, l))) = (ground (arith, g.failures), ground (arith, g.policy))

-- Under "on-failure" with a limit above the failures counted before, the rounds that were all
-- followed by another and those failures are together fewer than the limit. So from a count of 0 no
-- schedule restarts the container as often as the limit says: a limit of 10 allows 9 restarts at most, where
-- the documentation calls it a maximum restart count of 10.
pub on_failure_bounded :
    (rs : List Round) (m m' : Monitor) (n : ℕ)
    → m.policy ≡ record { name = codes "on-failure"; maximum_retry_count = pos (suc n) }
    → m.failure_count ≤ n
    → loop rs m ≡ some (running_on m')
    → length rs + m.failure_count ≤ n
unfolding loop
on_failure_bounded [] m m' n p b h = omega arith
on_failure_bounded (r ∷ rs) m m' n p b h = elim (Option-cases (round r m)) [
  | inl e ↦ absurd (ground (arith, e))
  | inr ((returned error, m₁), e) ↦ absurd (ground (arith, e))
  | inr ((again, m₁), e) ↦
      let g = round-again r m m₁ e in
      let (one, low) = on_failure-Goes r m m₁ n p g in
      let next : loop rs m₁ ≡ some (running_on m') = ground (arith, e) in
      let ih = on_failure_bounded rs m₁ m' n (g.policy ∙ p) low next in omega arith
]

set_stopped-state :
    (now : ℕ) (code : ℤ) (s t : State)
    → set_stopped now code s ≡ some t
    → (t.running ≡ false) × (t.exit_code ≡ code)
unfolding set_stopped
set_stopped-state now code s t h = ground arith

abbrev Stopped : Round → Monitor → Type 0
Stopped r m = (m.state.running ≡ false) × (m.state.exit_code ≡ r.exit_status)

restart-returned :
    (r : Round) (m m' : Monitor) (error : Bool)
    → restart r m ≡ some (returned error, m')
    → Stopped r m'
unfolding restart
restart-returned r m m' error h =
    elim (Option-cases (in_state (set_restarting r.now r.exit_status) m)) [
      | inl e ↦ absurd (ground (arith, e))
      | inr (m₁, e) ↦
          let m₂ = requested r.stop_while_waiting (log_event reset_container (log_event die m₁)) in
          elim (Option-cases (set_stopped r.now r.exit_status m₂.state)) [
            | inl e' ↦ absurd (ground (arith, e, e'))
            | inr (s, e') ↦
                let v = set_stopped-state r.now r.exit_status m₂.state s e' in ground (arith, e, e')
          ]
    ]

after_run-returned :
    (r : Round) (m m' : Monitor) (error : Bool)
    → after_run r m ≡ some (returned error, m')
    → Stopped r m'
unfolding after_run
after_run-returned r m m' error h =
    let m₁ =
      reset_monitor r.execution_time (not r.run_fails && is_zero r.exit_status)
        (requested r.stop_while_running m) in
    elim (Bool-cases (should_restart r.exit_status m₁)) [
      | inl go ↦ restart-returned r m₁ m' error (rw go at h)
      | inr stop ↦ elim (Option-cases (set_stopped r.now r.exit_status m₁.state)) [
        | inl e ↦ absurd (ground (arith, e))
        | inr (s, e) ↦
            let v = set_stopped-state r.now r.exit_status m₁.state s e in ground (arith, e)
      ]
    ]

-- A round that makes `Start` return without an error leaves the container stopped, with the exit
-- status of that round.
pub round-returned :
    (r : Round) (m m' : Monitor)
    → round r m ≡ some (returned false, m')
    → (m'.state.running ≡ false) × (m'.state.exit_code ≡ r.exit_status)
unfolding round
round-returned r m m' h =
    let m₁ = log_event start (record m { restart_count = inc m.restart_count }) in
    elim (Option-cases (callback r.now r.started m₁)) [
      | inl e ↦ absurd (ground (arith, e))
      | inr (m₂, e) ↦
          let step : after_run r m₂ ≡ some (returned false, m') = ground (arith, e) in
          after_run-returned r m₂ m' false step
    ]
