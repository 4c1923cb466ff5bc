-- ===== src/Daemon/State/Reach.antt =====
-- The states that a container can reach by the methods of `State`.
use docker_analysis.Base.{
  ℕ, suc, ◌<◌, ◌≡◌, true, false, List, [], ◌∷◌, Option, none, some, arith, nat_eq, All, refl,
}
use docker_analysis.Base.Int.{ℤ, pos}
use docker_analysis.Base.Keys.{contains}
use docker_analysis.Daemon.State.{
  State, new_state, renew_chan, set_running, set_stopped, set_restarting, set_paused, set_unpaused,
}

pub data Call : Type 0 where
  runs : ℕ → ℕ → Call
  stops restarts : ℕ → ℤ → Call
  pauses unpauses : Call

-- `none` is a panic.
unfoldable pub call : Call → State → Option State
call (runs now pid) s = set_running now pid s
call (stops now code) s = set_stopped now code s
call (restarts now code) s = set_restarting now code s
call pauses s = some (set_paused s)
call unpauses s = some (set_unpaused s)

abbrev pub AllBelow : ℕ → List ℕ → Type 0
AllBelow n = All (λ c. c < n)

pub record Inv (s : State) : Type 0 where
  pub stopped_pid : s.running ≡ false → s.pid ≡ 0
  pub restarting_runs : s.restarting ≡ true → (s.running ≡ true) × (s.pid ≡ 0)
  pub wait_open : contains s.closed s.wait_chan ≡ false
  pub wait_below : s.wait_chan < s.next_chan
  pub closed_below : AllBelow s.next_chan s.closed

not_contains_above : (n : ℕ) (l : List ℕ) → AllBelow n l → contains l n ≡ false
unfolding contains
not_contains_above n [] h = refl
not_contains_above n (x ∷ l) h = ground (arith, not_contains_above n l h.1)

AllBelow-suc : (n : ℕ) (l : List ℕ) → AllBelow n l → AllBelow (suc n) l
AllBelow-suc n [] h = tt
AllBelow-suc n (x ∷ l) h = (omega arith, AllBelow-suc n l h.1)

renewed : State → State
renewed s = record s {
  closed = s.wait_chan ∷ s.closed;
  wait_chan = s.next_chan;
  next_chan = suc s.next_chan;
}

-- The methods that replace the channel never panic, and keep the invariant.
renew_chan-Inv :
    (t : State)
    → contains t.closed t.wait_chan ≡ false
    → t.wait_chan < t.next_chan
    → AllBelow t.next_chan t.closed
    → (t.running ≡ false → t.pid ≡ 0)
    → (t.restarting ≡ true → (t.running ≡ true) × (t.pid ≡ 0))
    → (renew_chan t ≡ some (renewed t)) × Inv (renewed t)
unfolding renew_chan contains renewed
renew_chan-Inv t o w c p r =
    let fresh = not_contains_above t.next_chan t.closed c in
    (
      ground arith,
      record {
        stopped_pid = p;
        restarting_runs = r;
        wait_open = ground arith;
        wait_below = omega arith;
        closed_below = (omega arith, AllBelow-suc t.next_chan t.closed c);
      },
    )

new_state-Inv : Inv new_state
unfolding contains
new_state-Inv = record {
  stopped_pid = λ e. refl;
  restarting_runs = λ e. absurd (cc);
  wait_open = refl;
  wait_below = omega arith;
  closed_below = tt;
}

abbrev Kept : Option State → Type 0
Kept o = (s : State) × (o ≡ some s) × Inv s

-- No call panics in a state that satisfies the invariant, and each keeps it.
pub call-Inv : (c : Call) (s : State) → Inv s → Kept (call c s)
unfolding call set_running set_stopped set_restarting
call-Inv (runs now pid) s v =
    let t : State = record s {
      running = true;
      paused = false;
      restarting = false;
      exit_code = pos 0;
      pid = pid;
      started_at = now;
    } in
    let (e, k) =
      renew_chan-Inv t v.wait_open v.wait_below v.closed_below (λ h. absurd (cc))
        (λ h. absurd (cc)) in
    (renewed t, e, k)
call-Inv (stops now code) s v =
    let t : State = record s {
      running = false;
      restarting = false;
      pid = 0;
      finished_at = now;
      exit_code = code;
    } in
    let (e, k) =
      renew_chan-Inv t v.wait_open v.wait_below v.closed_below (λ h. refl) (λ h. absurd (cc)) in
    (renewed t, e, k)
call-Inv (restarts now code) s v =
    let t : State = record s {
      running = true;
      restarting = true;
      pid = 0;
      finished_at = now;
      exit_code = code;
    } in
    let (e, k) =
      renew_chan-Inv t v.wait_open v.wait_below v.closed_below (λ h. absurd (cc))
        (λ h. (refl, refl)) in
    (renewed t, e, k)
call-Inv pauses s v = (
  set_paused s,
  refl,
  record {
    stopped_pid = v.stopped_pid;
    restarting_runs = v.restarting_runs;
    wait_open = v.wait_open;
    wait_below = v.wait_below;
    closed_below = v.closed_below;
  },
)
call-Inv unpauses s v = (
  set_unpaused s,
  refl,
  record {
    stopped_pid = v.stopped_pid;
    restarting_runs = v.restarting_runs;
    wait_open = v.wait_open;
    wait_below = v.wait_below;
    closed_below = v.closed_below;
  },
)

-- A history of calls from the state that `NewState` makes.
unfoldable pub history : List Call → State → Option State
history [] s = some s
history (c ∷ cs) s = elim (call c s) [ none ↦ none | some t ↦ history cs t ]

history-Inv : (cs : List Call) (s : State) → Inv s → Kept (history cs s)
unfolding history
history-Inv [] s v = (s, refl, v)
history-Inv (c ∷ cs) s v = let (t, e, k) = call-Inv c s v in rw (e, history) (history-Inv cs t k)

-- No history of calls closes a channel twice, and after it a stopped container has no process, a
-- restarting one counts as running and has no process, and the channel waited on is open.
pub history_safe : (cs : List Call) → (s : State) × (history cs new_state ≡ some s) × Inv s
history_safe cs = history-Inv cs new_state new_state-Inv
