-- ===== src/Daemon/Monitor/Policy.antt =====
-- The restart decision and the back-off.
use native.Mathlib.Nat.{pow-suc}
use docker_analysis.Base.{
  ℕ, zero, suc, ◌*◌, ◌^◌, ◌≤◌, ◌<◌, ◌≡◌, ◌↔◌, ◌⊎◌, inl, inr, true, false, List, [], ◌∷◌, arith,
  str_eq, str_beq_iff, str_beq, codes, refl, ap, ◌∙◌, sym, length, All,
}
use docker_analysis.Base.Int.{ℤ, pos, negsuc, is_zero}
use docker_analysis.Daemon.Monitor.{
  Monitor, should_restart, exit_on_next, reset_monitor, retries_used_up,
}

-- What the policies promise.
abbrev pub Restarts : ℤ → Monitor → Type 0
Restarts status m =
    (m.should_stop ≡ false)
    × ((m.policy.name ≡ codes "always")
        ⊎ (m.policy.name ≡ codes "on-failure")
          × (is_zero status ≡ false)
          × ((m.policy.maximum_retry_count ≡ pos 0)
              ⊎ ((n : ℕ) × (m.policy.maximum_retry_count ≡ pos n) × (m.failure_count < n))))

not_both : str_beq (codes "on-failure") (codes "always") ≡ false
unfolding str_beq
not_both = refl

same : str_beq (codes "on-failure") (codes "on-failure") ≡ true
unfolding str_beq
same = refl

allowed :
    (z : ℤ) (f : ℕ) → retries_used_up z f ≡ false → (z ≡ pos 0) ⊎ ((n : ℕ) × (z ≡ pos n) × (f < n))
allowed (pos zero) f h = inl refl
allowed (pos (suc n)) f h = inr (suc n, refl, ground arith)
allowed (negsuc n) f h = absurd (ground arith)

not_used_up : (n f : ℕ) → f < n → retries_used_up (pos n) f ≡ false
not_used_up zero f h = refl
not_used_up (suc n) f h = ground arith

-- The monitor restarts exactly when nobody asked it to stop, and the policy is "always", or it is
-- "on-failure", the exit status is not 0, and the limit is 0 or the failures in a row, this one
-- counted, are below it. So the failure that reaches the limit is not restarted, where the
-- documentation says that only one more than the limit ends the restarts.
pub should_restart_iff :
    (status : ℤ) (m : Monitor) → (should_restart status m ≡ true) ↔ Restarts status m
unfolding should_restart
should_restart_iff status m = (only_if, if_so)
  where
    only_if : should_restart status m ≡ true → Restarts status m
    only_if h = ground (
      arith,
      (str_beq_iff m.policy.name (codes "always")).0,
      (str_beq_iff m.policy.name (codes "on-failure")).0,
      allowed m.policy.maximum_retry_count m.failure_count,
    )

    if_so : Restarts status m → should_restart status m ≡ true
    if_so (run, inl e) = rw (run, (str_beq_iff m.policy.name (codes "always")).1 e)
    if_so (run, inr (e, s, inl n)) = rw (run, e, not_both, same, n, s)
    if_so (run, inr (e, s, inr (n, k, l))) =
        rw (run, e, not_both, same, k, not_used_up n m.failure_count l, s)

-- A second request to stop changes nothing, so `stopChan` is closed once at most.
pub exit_on_next_idem : (m : Monitor) → exit_on_next (exit_on_next m) ≡ exit_on_next m
unfolding exit_on_next
exit_on_next_idem m = ground arith

-- The wait before the next restart, after runs of the given lengths.
unfoldable pub back_off : List ℕ → Monitor → Monitor
back_off [] m = m
back_off (t ∷ ts) m = back_off ts (reset_monitor t false m)

pow-pos : (k : ℕ) → 0 < 2 ^ k
pow-pos zero = omega arith
pow-pos (suc k) = simp pow-suc (omega (arith, pow-pos k))

le-mul_pos : (a p : ℕ) → 0 < p → a ≤ a * p
le-mul_pos a p h = grind arith

-- As long as 64 bits hold it, every run of ten seconds or less doubles the wait.
pub time_increment-back_off :
    (ts : List ℕ) (m : Monitor)
    → All (λ t. t ≤ 10_000_000_000) ts
    → m.time_increment * 2 ^ length ts < 0x1_0000_0000_0000_0000
    → (back_off ts m).time_increment ≡ m.time_increment * 2 ^ length ts
unfolding back_off reset_monitor
time_increment-back_off [] m h b = omega arith
time_increment-back_off (t ∷ ts) m h b =
    let k = length ts in
    let twice : 2 ^ suc k ≡ 2 * 2 ^ k = simp pow-suc (omega arith) in
    let whole : m.time_increment * 2 ^ suc k ≡ m.time_increment * 2 * 2 ^ k =
      ap (◌*◌ m.time_increment) twice ∙ omega arith in
    let fits : m.time_increment * 2 < 0x1_0000_0000_0000_0000 =
      omega (arith, le-mul_pos (m.time_increment * 2) (2 ^ k) (pow-pos k)) in
    let m' = reset_monitor t false m in
    let doubled : m'.time_increment ≡ m.time_increment * 2 = ground (arith, h.0) in
    let rest : m'.time_increment * 2 ^ k ≡ m.time_increment * 2 ^ suc k =
      ap (λ x. x * 2 ^ k) doubled ∙ sym whole in
    time_increment-back_off ts m' h.1 (omega arith) ∙ rest
