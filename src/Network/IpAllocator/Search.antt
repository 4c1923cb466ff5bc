-- ===== src/Network/IpAllocator/Search.antt =====
-- What `getNextIP` settles on.
use mathlib.Core.Option
use native.Mathlib.Nat.{mod-lt}
use docker_analysis.Base.{
  ℕ, ◌%◌, ◌≤◌, ◌<◌, ◌≡◌, ◌↔◌, refl, Bool, true, false, Option, none, some, arith, nat_eq,
  Option-cases, inl, inr, ◌⊎◌, sym, ap, subst, ◌∙◌,
}
use docker_analysis.Base.Keys.{add}
use docker_analysis.Base.Search.{first_index, first_index-some, first_index-none}
use docker_analysis.Network.Ip.{Ip, IpNet, two31, add32, int_to_ip}
use docker_analysis.Network.IpAllocator.{
  AllocatedMap, ok, no_available_ips, Range, range_of, rounds, next_pos, settle, get_next_ip,
  net_eq,
}
use docker_analysis.Network.IpAllocator.Next.{
  usable, visited, round_of, visited-round_of, round_of-visited, next_pos-first_index,
}

-- The search runs: the network has room for a host, and the last position is not negative.
abbrev pub HasRoom : AllocatedMap → Range → Type 0
HasRoom a r = (0 < r.max) × (r.max < two31) × (a.last < two31)

-- How far the search goes before it looks at a position.
abbrev pub steps_to : AllocatedMap → Range → ℕ → ℕ
steps_to a r pos = round_of r.max (a.last % r.max) pos

module _ (a : AllocatedMap) (r : Range) (room : HasRoom a r) where
  start-lt : a.last % r.max < r.max
  start-lt = mod-lt a.last room.0

  test : ℕ → Bool
  test j = usable r a.p (visited r.max (a.last % r.max) j)

  found : Option ℕ
  unfolding test
  found = first_index test r.max 0

  next_pos-found :
      next_pos r a.p (rounds r.max) a.last ≡ Option.map (visited r.max (a.last % r.max)) found
  unfolding found test
  next_pos-found =
      let all : rounds r.max ≡ r.max = ground arith in
      rw all (
        next_pos-first_index r (a.last % r.max) start-lt room.1 a.p r.max 0 a.last (omega arith)
          room.2 (λ m. ground (arith, start-lt)))

  found-none_iff : (found ≡ none) ↔ ((pos : ℕ) → 1 ≤ pos → pos ≤ r.max → usable r a.p pos ≡ false)
  unfolding found test
  found-none_iff = (only_if, λ h. if_full h (Option-cases found))
    where
      only_if : found ≡ none → (pos : ℕ) → 1 ≤ pos → pos ≤ r.max → usable r a.p pos ≡ false
      only_if h pos low high =
          let (at, k) = visited-round_of r (a.last % r.max) start-lt room.1 pos low high in
          subst (λ m. usable r a.p m ≡ false) at
            (first_index-none test r.max 0 h (steps_to a r pos) (omega arith) (omega arith))

      if_full :
          ((pos : ℕ) → 1 ≤ pos → pos ≤ r.max → usable r a.p pos ≡ false)
          → (found ≡ none) ⊎ ((j : ℕ) × (found ≡ some j))
          → found ≡ none
      if_full h (inl e) = e
      if_full h (inr (j, e)) =
          let (_, high, pass, _) = first_index-some test r.max 0 j e in
          let (_, low, bound) =
            round_of-visited r (a.last % r.max) start-lt room.1 j (omega arith) in
          absurd (cc (h _ low bound))

  -- What a successful search has found.
  abbrev pub Nearest : ℕ → Type 0
  Nearest q =
      (1 ≤ q)
      × (q ≤ r.max)
      × (usable r a.p q ≡ true)
      × ((s : ℕ) → 1 ≤ s → s ≤ r.max → steps_to a r s < steps_to a r q → usable r a.p s ≡ false)

  found-Nearest : (j : ℕ) → found ≡ some j → Nearest (visited r.max (a.last % r.max) j)
  unfolding found test
  found-Nearest j e =
      let (_, high, pass, before) = first_index-some test r.max 0 j e in
      let (far, low, bound) = round_of-visited r (a.last % r.max) start-lt room.1 j (omega arith) in
      (
        low,
        bound,
        pass,
        λ s sl sh closer.
            let (at, _) = visited-round_of r (a.last % r.max) start-lt room.1 s sl sh in
            subst (λ m. usable r a.p m ≡ false) at
              (before (steps_to a r s) (omega arith) (omega arith)),
      )

module _ (a : AllocatedMap) (network : IpNet) (room : HasRoom a (range_of network)) where
  -- On a network with room, the error is returned, and nothing changes, exactly when every position
  -- from 1 to the largest is allocated or reserved for the bridge or the first address.
  pub get_next_ip_full : (get_next_ip a network ≡ (no_available_ips, a)) ↔ (
      (pos : ℕ)
      → 1 ≤ pos
      → pos ≤ (range_of network).max
      → usable (range_of network) a.p pos ≡ false)
  unfolding get_next_ip
  get_next_ip_full =
      let r = range_of network in
      let all = next_pos-found a r room in
      (
        λ h. (found-none_iff a r room).0 (none_of (found a r room) (sym (ap (settle a r) all) ∙ h)),
        λ h. ap (settle a r) (all ∙ ap (Option.map _) ((found-none_iff a r room).1 h)),
      )
    where
      none_of :
          (o : Option ℕ)
          → settle a
              (range_of network)
              (Option.map (visited (range_of network).max (a.last % (range_of network).max)) o)
            ≡ (no_available_ips, a)
          → o ≡ none
      none_of none h = refl
      none_of (some j) h = absurd (ground arith)

  -- On a network with room where some position is usable, the usable position nearest after the
  -- last one, going round the network, is handed out, recorded, and becomes the last one.
  pub get_next_ip-Nearest :
      (pos : ℕ)
      → 1 ≤ pos
      → pos ≤ (range_of network).max
      → usable (range_of network) a.p pos ≡ true
      → (q : ℕ) × (get_next_ip a network
          ≡ (ok (int_to_ip (add32 (range_of network).base q)), record { p = add q a.p; last = q }))
        × Nearest a (range_of network) room q
  unfolding get_next_ip
  get_next_ip-Nearest pos low high free =
      let r = range_of network in
      elim (Option-cases (found a r room)) [
        | inl e ↦ absurd (cc ((found-none_iff a r room).0 e pos low high))
        | inr (j, e) ↦ (
          visited r.max (a.last % r.max) j,
          ap (settle a r) (next_pos-found a r room ∙ ap (Option.map _) e),
          found-Nearest a r room j e,
        )
      ]

  -- Whatever it hands out is a usable position of the network.
  pub get_next_ip-usable :
      (x : Ip) (a' : AllocatedMap)
      → get_next_ip a network ≡ (ok x, a')
      → (q : ℕ) × (1 ≤ q)
        × (q ≤ (range_of network).max)
        × (usable (range_of network) a.p q ≡ true)
        × (x ≡ int_to_ip (add32 (range_of network).base q))
        × (a' ≡ record { p = add q a.p; last = q })
  unfolding get_next_ip
  get_next_ip-usable x a' h =
      let r = range_of network in
      elim (Option-cases (found a r room)) [
        | inl e ↦ absurd (
            ground
              (arith, next_pos-found a r room, ap (Option.map (visited r.max (a.last % r.max))) e))
        | inr (j, e) ↦
            let (low, high, free, _) = found-Nearest a r room j e in
            let done = sym (ap (settle a r) (next_pos-found a r room ∙ ap (Option.map _) e)) ∙ h in
            (visited r.max (a.last % r.max) j, low, high, free, ground arith, ground arith)
      ]
