-- ===== src/Network/PortAllocator/Requests.antt =====
-- `RequestPort` against the set of taken (IP, protocol, port) triples.
use docker_analysis.Base.{
  ℕ, zero, suc, ◌≤◌, ◌≡◌, refl, false, Bool, [], Option, none, some, arith, ◌&&◌, ◌||◌, str_beq_iff,
  if◌then◌else◌, nat_eq, str_eq, ◌==◌, Str, codes, ◌⊎◌, inl, inr, Bool-cases,
}
use docker_analysis.Base.Dict.{insert, lookup-insert}
use docker_analysis.Base.Keys.{contains, add, contains-add}
use docker_analysis.Network.PortAllocator.{
  PortMap, ProtoMap, IpMapping, Outcome, ok, begin_port_range, ip_text, proto_map_at, new_port_map,
  find_port, request_in, request_port, put_tcp, put_udp, map_some,
}
use docker_analysis.Network.PortAllocator.Find.{find_port-fresh}

-- The port map that the source reaches by `globalMap[ip][proto]`.
abbrev pub port_map_of : Str → ProtoMap → PortMap
port_map_of proto m =
    if proto == codes "tcp" then m.tcp else if proto == codes "udp" then m.udp else new_port_map

pub contains_nil : (q : ℕ) → contains [] q ≡ false
unfolding contains
contains_nil q = refl

abbrev pub port_map_at : IpMapping → Str → Str → PortMap
port_map_at g ip proto = port_map_of proto (proto_map_at ip g)

unfoldable pub taken : IpMapping → Str → Str → ℕ → Bool
taken g ip proto port = contains (port_map_at g ip proto).p port

-- A port map whose automatic search has started, or whose first port is free.
abbrev pub IsReady : PortMap → Type 0
IsReady pm =
    (begin_port_range ≤ pm.last) ⊎ ((pm.last ≡ 0) × (contains pm.p begin_port_range ≡ false))

find_port-add :
    (fuel : ℕ) (pm pm' : PortMap) (q : ℕ)
    → find_port fuel pm ≡ some (ok q, pm')
    → pm'.p ≡ add q pm.p
unfolding find_port
find_port-add fuel pm pm' q h = ground arith

pub request_in-add :
    (fuel : ℕ) (ip : Str) (port : ℕ) (pm pm' : PortMap) (q : ℕ)
    → request_in fuel ip port pm ≡ some (ok q, pm')
    → pm'.p ≡ add q pm.p
unfolding request_in
request_in-add fuel ip zero pm pm' q h = find_port-add fuel pm pm' q h
request_in-add fuel ip (suc n) pm pm' q h = ground arith

pub request_in-fresh :
    (fuel : ℕ) (ip : Str) (port : ℕ) (pm pm' : PortMap) (q : ℕ)
    → IsReady pm
    → request_in fuel ip port pm ≡ some (ok q, pm')
    → contains pm.p q ≡ false
unfolding request_in find_port
request_in-fresh fuel ip zero pm pm' q (inl r) h = (find_port-fresh fuel pm pm' q r h).0
request_in-fresh fuel ip zero pm pm' q (inr (l, free)) h = ground arith
request_in-fresh fuel ip (suc n) pm pm' q r h = ground arith

module _ (ip : Str) (m : ProtoMap) (g : IpMapping) (pm : PortMap) (ip' proto' : Str) (q : ℕ) where
  pub taken-tcp :
      proto_map_at ip g ≡ m
      → taken (insert ip (record m { tcp = pm }) g) ip' proto' q
        ≡ (if (ip == ip') && (codes "tcp" == proto') then contains pm.p q else taken g ip' proto' q)
  unfolding taken
  taken-tcp h = ground (
    arith,
    lookup-insert ip ip' (record m { tcp = pm }) g,
    str_beq_iff ip ip',
    str_beq_iff proto' (codes "tcp"),
    str_beq_iff (codes "tcp") proto',
  )

  pub taken-udp :
      proto_map_at ip g ≡ m
      → taken (insert ip (record m { udp = pm }) g) ip' proto' q
        ≡ (if (ip == ip') && (codes "udp" == proto') then contains pm.p q else taken g ip' proto' q)
  unfolding taken
  taken-udp h = ground (
    arith,
    lookup-insert ip ip' (record m { udp = pm }) g,
    str_beq_iff ip ip',
    str_beq_iff proto' (codes "udp"),
    str_beq_iff (codes "udp") proto',
    str_beq_iff proto' (codes "tcp"),
  )

-- A successful request, taken apart: the answer of the port map, and what was stored.
module _ (key : Str) (m : ProtoMap) (g g' : IpMapping) (q : ℕ) where
  put_tcp-eq_ok :
      (r : Option (Outcome × PortMap))
      → map_some (put_tcp key m g) r ≡ some (ok q, g')
      → (pm : PortMap) × (r ≡ some (ok q, pm)) × (g' ≡ insert key (record m { tcp = pm }) g)
  put_tcp-eq_ok none h = absurd (ground arith)
  put_tcp-eq_ok (some (o, pm)) h = (pm, ground arith, ground arith)

  put_udp-eq_ok :
      (r : Option (Outcome × PortMap))
      → map_some (put_udp key m g) r ≡ some (ok q, g')
      → (pm : PortMap) × (r ≡ some (ok q, pm)) × (g' ≡ insert key (record m { udp = pm }) g)
  put_udp-eq_ok none h = absurd (ground arith)
  put_udp-eq_ok (some (o, pm)) h = (pm, ground arith, ground arith)

module _ (fuel : ℕ) (g g' : IpMapping) (ip : Option Str) (proto : Str) (port q : ℕ) where
  abbrev Served : Type 0
  Served =
      (pm : PortMap) × (request_in fuel (ip_text ip) port (port_map_at g (ip_text ip) proto)
        ≡ some (ok q, pm))
      × ((ip' proto' : Str) (q' : ℕ)
          → taken g' ip' proto' q' ≡ (
              if (ip_text ip == ip') && (proto == proto')
              then contains pm.p q'
              else taken g ip' proto' q'))

  request_port-Served : request_port fuel g ip proto port ≡ some (ok q, g') → Served
  unfolding request_port
  request_port-Served served =
      let key = ip_text ip in
      let m = proto_map_at key g in
      elim (Bool-cases (proto == codes "tcp")) [
        | inl tcp ↦
            let (pm, asked, stored) =
              put_tcp-eq_ok key m g g' q (request_in fuel key port m.tcp) (rw tcp at served) in
            let same : proto ≡ codes "tcp" = (str_beq_iff _ _).0 tcp in
            (
              pm,
              rw tcp asked,
              λ ip' proto' q'. rw (stored, same) (taken-tcp key m g pm ip' proto' q' refl),
            )
        | inr other ↦ elim (Bool-cases (proto == codes "udp")) [
          | inl udp ↦
              let (pm, asked, stored) =
                put_udp-eq_ok key m g g' q (request_in fuel key port m.udp)
                  (rw (other, udp) at served) in
              let same : proto ≡ codes "udp" = (str_beq_iff _ _).0 udp in
              (
                pm,
                rw (other, udp) asked,
                λ ip' proto' q'. rw (stored, same) (taken-udp key m g pm ip' proto' q' refl),
              )
          | inr neither ↦ absurd (ground arith)
        ]
      ]

  -- A request that returns a port marks exactly that port, for that IP and protocol.
  pub taken-request_port :
      request_port fuel g ip proto port ≡ some (ok q, g')
      → (ip' proto' : Str) (q' : ℕ)
      → taken g' ip' proto' q'
        ≡ (((ip_text ip == ip') && (proto == proto') && (q == q')) || taken g ip' proto' q')
  unfolding taken
  taken-request_port served ip' proto' q' =
      let (pm, asked, after) = request_port-Served served in
      ground (
        arith,
        after ip' proto' q',
        request_in-add fuel (ip_text ip) port (port_map_at g (ip_text ip) proto) pm q asked,
        contains-add q q' (port_map_at g (ip_text ip) proto).p,
        str_beq_iff (ip_text ip) ip',
        str_beq_iff proto proto',
      )

  -- A port that a request returns was free before it, if the automatic search of this IP and
  -- protocol has run before, or the first port of the range is free.
  pub request_port-fresh :
      request_port fuel g ip proto port ≡ some (ok q, g')
      → IsReady (port_map_at g (ip_text ip) proto)
      → taken g (ip_text ip) proto q ≡ false
  unfolding taken
  request_port-fresh served r =
      let (pm, asked, _) = request_port-Served served in
      request_in-fresh fuel (ip_text ip) port (port_map_at g (ip_text ip) proto) pm q r asked

-- A port that is asked for by number is the one that a request returns.
pub request_port-numbered :
    (fuel : ℕ) (g g' : IpMapping) (ip : Option Str) (proto : Str) (n q : ℕ)
    → request_port fuel g ip proto (suc n) ≡ some (ok q, g')
    → q ≡ suc n
unfolding request_in
request_port-numbered fuel g g' ip proto n q served =
    let (pm, asked, _) = request_port-Served fuel g g' ip proto (suc n) q served in ground arith

-- A tcp or udp port that is free is returned when it is asked for by number.
pub request_port-free :
    (fuel : ℕ) (g : IpMapping) (ip : Option Str) (proto : Str) (n : ℕ)
    → (proto ≡ codes "tcp") ⊎ (proto ≡ codes "udp")
    → taken g (ip_text ip) proto (suc n) ≡ false
    → (g' : IpMapping) × (request_port fuel g ip proto (suc n) ≡ some (ok (suc n), g'))
unfolding request_port request_in taken
request_port-free fuel g ip proto n known free =
    let key = ip_text ip in
    let m = proto_map_at key g in
    elim known [
      | inl tcp ↦ (
        insert key (record m { tcp = record m.tcp { p = add (suc n) m.tcp.p } }) g,
        ground (arith, str_beq_iff proto (codes "tcp")),
      )
      | inr udp ↦ (
        insert key (record m { udp = record m.udp { p = add (suc n) m.udp.p } }) g,
        ground (arith, str_beq_iff proto (codes "tcp"), str_beq_iff proto (codes "udp")),
      )
    ]
