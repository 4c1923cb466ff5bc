-- ===== src/Network/PortMapper/Retry.antt =====
-- A second `Map` of the same address after the proxy of the first one did not start.
use docker_analysis.Base.{
  ℕ, suc, ◌≡◌, false, Option, some, if◌then◌else◌, str_eq, nat_eq, Str, codes, arith, refl, inl,
  inr, ◌⊎◌, Option-cases, Bool-cases, eq_refl, ap, ◌∙◌, sym, str_beq_iff,
}
use docker_analysis.Base.Dict.{lookup, insert, lookup-insert}
use docker_analysis.Network.PortAllocator.{
  IpMapping, Outcome, request_port, release_port, ip_text, free_in,
}
use docker_analysis.Network.PortAllocator as Ports
use docker_analysis.Network.PortAllocator.Requests.{taken, request_port-numbered, request_port-free}
use docker_analysis.Network.PortMapper.{
  Addr, tcp_addr, udp_addr, other_addr, Mapping, Mapper, Host, Mapped, MapError, failed, get_key,
  host_addr, proto_of_addr, give_up, forward, start_proxy, map_allocated, map_port, add_rule,
  delete_rule, start_failed, port_mapped_for_ip, forward_failed, store_mapping, new_mapping,
}
use docker_analysis.Network.PortMapper.Laws.{forward-keeps, given_up, taken-give_up}

module _ (container : Addr) (ip : Option Str) (proto : Str) (port : ℕ) where
  -- What a call leaves that gave up with that error.
  abbrev LeftBehind : Mapper → Type 0
  LeftBehind s' =
      (lookup (get_key (host_addr container ip port)) s'.mappings
        ≡ some (new_mapping container ip proto port))
      × (taken s'.ports (ip_text ip) proto port ≡ false)

  freed :
      (e : MapError) (s s' : Mapper) (r : Mapped)
      → give_up ip proto port e s ≡ some (r, s')
      → taken s'.ports (ip_text ip) proto port ≡ false
  freed e s s' r h =
      taken-give_up ip proto port e s s' r h (ip_text ip) proto port
      ∙ ground (arith, eq_refl (ip_text ip), eq_refl proto)

  start_proxy-LeftBehind :
      (h : Host) (s s' : Mapper)
      → start_proxy h container ip proto port s ≡ some (failed start_failed, s')
      → LeftBehind s'
  unfolding start_proxy
  start_proxy-LeftBehind h s s' went = elim (Bool-cases h.start_fails) [
    | inr f ↦ absurd (ground arith)
    | inl f ↦
        let key = get_key (host_addr container ip port) in
        let m = new_mapping container ip proto port in
        let stored = store_mapping container ip proto port s in
        let s₂ = (forward h delete_rule m stored).1 in
        let gave : give_up ip proto port start_failed s₂ ≡ some (failed start_failed, s') =
          sym (rw (start_proxy, f) refl) ∙ went in
        (
          ap (lookup key) (
                (given_up ip proto port start_failed s₂ s' (failed start_failed) gave).1
                ∙ (forward-keeps h delete_rule m stored).1)
              ∙ lookup-insert key key m s.mappings
              ∙ ap (λ b. if b then some m else lookup key s.mappings) (eq_refl key),
          freed start_failed s₂ s' (failed start_failed) gave,
        )
  ]

  map_allocated-LeftBehind :
      (h : Host) (s s' : Mapper)
      → map_allocated h container ip proto port s ≡ some (failed start_failed, s')
      → LeftBehind s'
  unfolding map_allocated
  map_allocated-LeftBehind h s s' went =
      let key = get_key (host_addr container ip port) in
      let m = new_mapping container ip proto port in
      elim (Option-cases (lookup key s.mappings)) [
        | inr (_, f) ↦
            let gave : give_up ip proto port port_mapped_for_ip s ≡ some (failed start_failed, s') =
              sym (rw (map_allocated, f) refl) ∙ went in
            let other =
              (given_up ip proto port port_mapped_for_ip s s' (failed start_failed) gave).0 in
            absurd (ground arith)
        | inl f ↦ elim (Bool-cases (forward h add_rule m s).0) [
          | inl bad ↦
              let s₁ = (forward h add_rule m s).1 in
              let gave : give_up ip proto port forward_failed s₁ ≡ some (failed start_failed, s') =
                sym (rw (map_allocated, f, bad) refl) ∙ went in
              let other =
                (given_up ip proto port forward_failed s₁ s' (failed start_failed) gave).0 in
              absurd (ground arith)
          | inr good ↦
              start_proxy-LeftBehind h (forward h add_rule m s).1 s'
                (sym (rw (map_allocated, f, good) refl) ∙ went)
        ]
      ]

  release_port-some :
      (g : IpMapping)
      → (proto ≡ codes "tcp") ⊎ (proto ≡ codes "udp")
      → (g' : IpMapping) × (release_port g ip proto port ≡ some g')
  unfolding release_port
  release_port-some g known = elim (Option-cases (lookup (ip_text ip) g)) [
    | inl e ↦ (g, ground (arith, e))
    | inr (m, e) ↦ elim known [
      | inl tcp ↦ (
        insert (ip_text ip) (record m { tcp = free_in port m.tcp }) g,
        ground (arith, e, str_beq_iff proto (codes "tcp")),
      )
      | inr udp ↦ (
        insert (ip_text ip) (record m { udp = free_in port m.udp }) g,
        ground (arith, e, str_beq_iff proto (codes "tcp"), str_beq_iff proto (codes "udp")),
      )
    ]
  ]

  refused_again :
      (h : Host) (m : Mapping) (s : Mapper)
      → (proto ≡ codes "tcp") ⊎ (proto ≡ codes "udp")
      → lookup (get_key (host_addr container ip port)) s.mappings ≡ some m
      → (s' : Mapper) × (map_allocated h container ip proto port s
          ≡ some (failed port_mapped_for_ip, s'))
  unfolding map_allocated give_up
  refused_again h m s known there =
      let (g, released) = release_port-some s.ports known in
      (record s { ports = g }, rw (map_allocated, there, give_up, released) refl)

proto-known :
    (container : Addr) (proto : Str)
    → proto_of_addr container ≡ some proto
    → (proto ≡ codes "tcp") ⊎ (proto ≡ codes "udp")
proto-known (tcp_addr _ _) proto h = inl (ground arith)
proto-known (udp_addr _ _) proto h = inr (ground arith)
proto-known other_addr proto h = absurd (ground arith)

-- What follows a request that gave a port.
map_port-asked :
    (fuel : ℕ) (h : Host) (container : Addr) (ip : Option Str) (proto : Str) (n port : ℕ)
    (ports : IpMapping) (s : Mapper)
    → proto_of_addr container ≡ some proto
    → request_port fuel s.ports ip proto n ≡ some (Ports.ok port, ports)
    → map_port fuel h container ip n s
      ≡ map_allocated h container ip proto port (record s { ports = ports })
unfolding map_port
map_port-asked fuel h container ip proto n port ports s known given =
    rw (map_port, known, given) refl

map_port-LeftBehind :
    (fuel : ℕ) (h : Host) (container : Addr) (ip : Option Str) (proto : Str) (n : ℕ) (s s' : Mapper)
    → proto_of_addr container ≡ some proto
    → map_port fuel h container ip (suc n) s ≡ some (failed start_failed, s')
    → LeftBehind container ip proto (suc n) s'
unfolding map_port
map_port-LeftBehind fuel h container ip proto n s s' known went =
    elim (Option-cases (request_port fuel s.ports ip proto (suc n))) [
      | inl e ↦ absurd (ground (arith, known, e))
      | inr ((Ports.err bad, ports), e) ↦ absurd (ground (arith, known, e))
      | inr ((Ports.ok port, ports), e) ↦
          let numbered = request_port-numbered fuel s.ports ports ip proto n port e in
          let given : request_port fuel s.ports ip proto (suc n) ≡ some (Ports.ok (suc n), ports) =
            e ∙ ap (λ k. some (Ports.ok k, ports)) numbered in
          map_allocated-LeftBehind container ip proto (suc n) h (record s { ports = ports }) s'
            (sym (map_port-asked fuel h container ip proto (suc n) (suc n) ports s known given)
              ∙ went)
    ]

-- When `Map` of a port that is given by number fails because the proxy does not start, the mapping is
-- left behind: the next `Map` of the same container address to the same address and port of the host,
-- whatever fails in it, is refused as mapped already.
pub map_after_failed_start :
    (fuel fuel' : ℕ) (h h' : Host) (container : Addr) (ip : Option Str) (n : ℕ) (s s' : Mapper)
    → map_port fuel h container ip (suc n) s ≡ some (failed start_failed, s')
    → (s'' : Mapper) × (map_port fuel' h' container ip (suc n) s'
        ≡ some (failed port_mapped_for_ip, s''))
unfolding map_port
map_after_failed_start fuel fuel' h h' container ip n s s' went =
    elim (Option-cases (proto_of_addr container)) [
      | inl e ↦ absurd (ground (arith, e))
      | inr (proto, known) ↦
          let (there, free) = map_port-LeftBehind fuel h container ip proto n s s' known went in
          let tcp_or_udp = proto-known container proto known in
          let (ports, given) = request_port-free fuel' s'.ports ip proto n tcp_or_udp free in
          let (s'', refused) =
            refused_again container ip proto (suc n) h' (new_mapping container ip proto (suc n))
              (record s' { ports = ports }) tcp_or_udp there in
          (
            s'',
            map_port-asked fuel' h' container ip proto (suc n) (suc n) ports s' known given
                ∙ refused,
          )
    ]
