-- ===== src/Network/PortAllocator/Find.antt =====
-- What `findPort` returns.
use docker_analysis.Base.{
  ℕ, zero, suc, ◌+◌, ◌≤◌, ◌<◌, ◌≡◌, ◌≢◌, ◌↔◌, refl, true, false, List, Option, none, some, arith,
  nat_beq, Option-cases, inl, inr, ◌⊎◌, nat_eq, subst, sym, ap, ◌∙◌,
}
use docker_analysis.Base.Keys.{contains, add}
use docker_analysis.Network.PortAllocator.{
  PortMap, ok, err, all_ports_allocated, begin_port_range, end_port_range, wrap, scan, take_found,
  find_port,
}
use docker_analysis.Network.PortAllocator.Scan.{
  range_size, port_after, distance, InRange, first_free, first_free-Found, first_free-none,
  scan-first_free, scan_diverges,
}

scan-fresh :
    (p : List ℕ) (last fuel port q : ℕ)
    → begin_port_range ≤ port
    → scan fuel p last port ≡ some (some q)
    → (contains p q ≡ false) × InRange q
unfolding scan
scan-fresh p last zero port q b h = absurd (ground arith)
scan-fresh p last (suc fuel) port q b h = ground (arith, scan-fresh p last fuel (wrap port + 1) q)

-- Whatever rounds it takes, a port found after an earlier one was free, lies in the range, is
-- recorded, and becomes the new `last`.
pub find_port-fresh :
    (fuel : ℕ) (pm pm' : PortMap) (q : ℕ)
    → begin_port_range ≤ pm.last
    → find_port fuel pm ≡ some (ok q, pm')
    → (contains pm.p q ≡ false) × InRange q × (pm' ≡ record { p = add q pm.p; last = q })
unfolding find_port
find_port-fresh fuel pm pm' q b h = ground (arith, scan-fresh pm.p pm.last fuel (pm.last + 1) q)

module _ (fuel : ℕ) (pm : PortMap) (past : begin_port_range < pm.last)
    (bound : pm.last ≤ end_port_range) (enough : range_size ≤ fuel) where
  pub find_port-first_free :
      find_port fuel pm ≡ some (take_found pm (first_free pm.p pm.last 16382 1))
  unfolding find_port
  find_port-first_free =
      let run =
        scan-first_free pm.p pm.last 16382 1 fuel (pm.last + 1) past bound refl (omega arith)
          (omega arith) (ground arith) (omega arith) in
      let started : nat_beq pm.last 0 ≡ false = ground arith in rw (started, run)

  port_after-distance :
      (q : ℕ)
      → InRange q
      → q ≢ pm.last
      → (port_after pm.last (distance pm.last q) ≡ q)
        × (1 ≤ distance pm.last q)
        × (distance pm.last q < 16383)
  port_after-distance q r n = (ground arith, ground arith, ground arith)

  distance-port_after :
      (k : ℕ)
      → 1 ≤ k
      → k < 16383
      → (distance pm.last (port_after pm.last k) ≡ k)
        × InRange (port_after pm.last k)
        × (port_after pm.last k ≢ pm.last)
  distance-port_after k l h = (ground arith, ground arith, ground arith)

  -- The search fails exactly if all the other ports are taken.
  first_free-none_iff :
      (first_free pm.p pm.last 16382 1 ≡ none)
      ↔ ((q : ℕ) → InRange q → q ≢ pm.last → contains pm.p q ≡ true)
  first_free-none_iff = (only_if, λ h. if_full h (Option-cases (first_free pm.p pm.last 16382 1)))
    where
      only_if :
          first_free pm.p pm.last 16382 1 ≡ none
          → (q : ℕ) → InRange q
          → q ≢ pm.last
          → contains pm.p q ≡ true
      only_if h q r n =
          let (at, low, high) = port_after-distance q r n in
          subst (λ m. contains pm.p m ≡ true) at
            (first_free-none pm.p pm.last 16382 1 h (distance pm.last q) low (omega arith))

      if_full :
          ((q : ℕ) → InRange q → q ≢ pm.last → contains pm.p q ≡ true)
          → ((first_free pm.p pm.last 16382 1 ≡ none)
              ⊎ ((q : ℕ) × (first_free pm.p pm.last 16382 1 ≡ some q)))
          → first_free pm.p pm.last 16382 1 ≡ none
      if_full h (inl e) = e
      if_full h (inr (q, e)) =
          let (j, low, high, at, free, _) = first_free-Found pm.p pm.last 16382 1 q e in
          let (_, range, other) = distance-port_after j low (omega arith) in
          absurd (cc (h q (subst InRange (sym at) range) (λ m. other (sym at ∙ m))))

  -- With `last` past the first port of the range and within it, and as much fuel as the range has
  -- ports, the error is returned exactly when every port of the range but `last` itself is taken.
  pub find_port_full :
      (find_port fuel pm ≡ some (err all_ports_allocated, pm))
      ↔ ((q : ℕ) → InRange q → q ≢ pm.last → contains pm.p q ≡ true)
  find_port_full = (
    λ h.
        first_free-none_iff.0
          (none_of (first_free pm.p pm.last 16382 1) (sym find_port-first_free ∙ h)),
    λ h. find_port-first_free ∙ ap (λ f. some (take_found pm f)) (first_free-none_iff.1 h),
  )
    where
      none_of :
          (o : Option ℕ) → some (take_found pm o) ≡ some (err all_ports_allocated, pm) → o ≡ none
      none_of none h = refl
      none_of (some q) h = absurd (ground arith)

-- With `last` at the first port and every port of the range taken, no number of rounds ends the
-- loop.
pub find_port_hangs :
    (fuel : ℕ) (pm : PortMap)
    → pm.last ≡ begin_port_range
    → ((q : ℕ) → InRange q → contains pm.p q ≡ true)
    → find_port fuel pm ≡ none
unfolding find_port
find_port_hangs fuel pm first full =
    let run = scan_diverges pm.p fuel (begin_port_range + 1) full (omega arith) (omega arith) in
    rw (first, run)
