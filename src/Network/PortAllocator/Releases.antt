-- ===== src/Network/PortAllocator/Releases.antt =====
-- Releases, and requests that are refused or go wrong, against the set of taken (IP, protocol,
-- port) triples.
use docker_analysis.Base.{
  ℕ, suc, ◌≡◌, true, [], Option, none, some, arith, not, ◌&&◌, str_beq_iff, str_beq, eq_refl,
  nat_eq, str_eq, ◌==◌, Str, codes, ◌⊎◌, inl, inr, Option-cases, Bool-cases, ap,
}
use docker_analysis.Base.Dict.{lookup, insert, lookup-insert}
use docker_analysis.Base.Keys.{contains, add, contains-remove}
use docker_analysis.Network.PortAllocator.{
  PortMap, ProtoMap, IpMapping, ok, err, port_already_allocated, begin_port_range, ip_text,
  proto_map_at, new_port_map, new_proto_map, find_port, request_in, request_port, release_port,
  free_in, put_tcp, map_some,
}
use docker_analysis.Network.PortAllocator.Requests.{taken, contains_nil, taken-tcp, taken-udp}

-- A release that does not panic makes its port free again, and no other port changes.
pub taken-release_port :
    (g g' : IpMapping) (ip : Option Str) (proto : Str) (port : ℕ)
    → release_port g ip proto port ≡ some g'
    → (ip' proto' : Str) (q' : ℕ)
    → taken g' ip' proto' q'
      ≡ (taken g ip' proto' q' && not ((ip_text ip == ip') && (proto == proto') && (port == q')))
unfolding taken release_port
taken-release_port g g' ip proto port h ip' proto' q' =
    elim (Option-cases (lookup (ip_text ip) g)) [
      | inl absent ↦ ground (arith, str_beq_iff (ip_text ip) ip', contains_nil q')
      | inr (m, present) ↦ elim (Bool-cases (proto == codes "tcp")) [
        | inl tcp ↦ ground (
          arith,
          str_beq_iff (ip_text ip) ip',
          (str_beq_iff proto (codes "tcp")).0 tcp,
          taken-tcp (ip_text ip) m g (free_in port m.tcp) ip' proto' q',
          contains-remove port q' m.tcp.p,
          str_beq_iff (codes "tcp") proto',
        )
        | inr other ↦ elim (Bool-cases (proto == codes "udp")) [
          | inl udp ↦ ground (
            arith,
            str_beq_iff (ip_text ip) ip',
            (str_beq_iff proto (codes "udp")).0 udp,
            taken-udp (ip_text ip) m g (free_in port m.udp) ip' proto' q',
            contains-remove port q' m.udp.p,
            str_beq_iff (codes "udp") proto',
          )
          | inr neither ↦ absurd (ground arith)
        ]
      ]
    ]

module _ (fuel : ℕ) (g : IpMapping) (ip : Option Str) where
  -- A tcp or udp port asked for by number that is taken is refused by name, and no port changes.
  pub request_port_conflict :
      (proto : Str) (n : ℕ)
      → (proto ≡ codes "tcp") ⊎ (proto ≡ codes "udp")
      → taken g (ip_text ip) proto (suc n) ≡ true
      → (g' : IpMapping) × (request_port fuel g ip proto (suc n)
          ≡ some (err (port_already_allocated (ip_text ip) (suc n)), g'))
        × ((ip' proto' : Str) (q' : ℕ) → taken g' ip' proto' q' ≡ taken g ip' proto' q')
  unfolding request_port request_in taken
  request_port_conflict proto n (inl tcp) busy = (
    insert (ip_text ip) (proto_map_at (ip_text ip) g) g,
    ground (arith, str_beq_iff proto (codes "tcp")),
    λ ip' proto' q'. ground (
      arith,
      lookup-insert (ip_text ip) ip' (proto_map_at (ip_text ip) g) g,
      str_beq_iff (ip_text ip) ip',
      contains_nil q',
    ),
  )
  request_port_conflict proto n (inr udp) busy = (
    insert (ip_text ip) (proto_map_at (ip_text ip) g) g,
    ground (arith, str_beq_iff proto (codes "tcp"), str_beq_iff proto (codes "udp")),
    λ ip' proto' q'. ground (
      arith,
      lookup-insert (ip_text ip) ip' (proto_map_at (ip_text ip) g) g,
      str_beq_iff (ip_text ip) ip',
      contains_nil q',
    ),
  )

  request_port-tcp :
      (h : IpMapping) (n : ℕ) (m : ProtoMap)
      → proto_map_at (ip_text ip) h ≡ m
      → request_port fuel h ip (codes "tcp") n
        ≡ map_some (put_tcp (ip_text ip) m h) (request_in fuel (ip_text ip) n m.tcp)
  unfolding request_port str_beq
  request_port-tcp h n m e =
      ap (λ m'. map_some (put_tcp (ip_text ip) m' h) (request_in fuel (ip_text ip) n m'.tcp)) e

  -- On an address without a port map yet, the first tcp port of the range asked for by number is
  -- then handed out again by the first automatic request.
  pub first_port_twice :
      lookup (ip_text ip) g ≡ none
      → (g₁ g₂ : IpMapping) × (request_port fuel g ip (codes "tcp") begin_port_range
          ≡ some (ok begin_port_range, g₁))
        × (request_port fuel g₁ ip (codes "tcp") 0 ≡ some (ok begin_port_range, g₂))
  unfolding request_in find_port str_beq contains
  first_port_twice absent =
      let once = insert (ip_text ip) (used begin) g in
      (
        once,
        insert (ip_text ip) (used again) once,
        request_port-tcp g begin_port_range new_proto_map (ground arith),
        request_port-tcp once 0 (used begin) (
            ground (
              arith,
              lookup-insert (ip_text ip) (ip_text ip) (used begin) g,
              eq_refl (ip_text ip),
            )),
      )
    where
      used : PortMap → ProtoMap
      used pm = record { tcp = pm; udp = new_port_map }

      begin : PortMap
      begin = record { p = add begin_port_range []; last = 0 }

      again : PortMap
      again = record { p = add begin_port_range begin.p; last = begin_port_range }
