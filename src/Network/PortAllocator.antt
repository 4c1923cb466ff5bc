-- ===== src/Network/PortAllocator.antt =====
-- daemon/networkdriver/portallocator/portallocator.go. Each entry point runs under one mutex, so a
-- call is a function of the global map. An IP is the text that `ip.String()` gives, `none` is nil.
-- A port is a natural number; a negative request takes the branch of 0 in the source.
pub mod Scan
pub mod Find
pub mod Requests
pub mod Releases
use docker_analysis.Base.{
  ℕ, zero, suc, ◌+◌, ◌≡◌, Bool, List, [], ◌∷◌, Option, none, some, ltb, nat_beq, if◌then◌else◌,
  ◌==◌, Str, codes, not, ◌||◌, nat_eq, str_eq,
}
use docker_analysis.Base.Dict.{lookup, insert}
use docker_analysis.Base.Keys.{contains, add, remove}

abbrev pub begin_port_range : ℕ
begin_port_range = 49153

abbrev pub end_port_range : ℕ
end_port_range = 65535

pub record PortMap : Type 0 where
  pub p : List ℕ
  pub last : ℕ

pub record ProtoMap : Type 0 where
  pub tcp : PortMap
  pub udp : PortMap

abbrev pub IpMapping : Type 0
IpMapping = List (Str × ProtoMap)

pub data Error : Type 0 where
  all_ports_allocated unknown_protocol : Error
  port_already_allocated : Str → ℕ → Error

pub data Outcome : Type 0 where
  ok : ℕ → Outcome
  err : Error → Outcome

abbrev pub new_port_map : PortMap
new_port_map = record { p = []; last = 0 }

abbrev pub new_proto_map : ProtoMap
new_proto_map = record { tcp = new_port_map; udp = new_port_map }

abbrev pub default_ip : Str
default_ip = codes "0.0.0.0"

-- `if port > EndPortRange { port = BeginPortRange }`
abbrev pub wrap : ℕ → ℕ
wrap port = if ltb end_port_range port then begin_port_range else port

-- The loop of `findPort`. Its inner `none` is the exit by `port != pm.last`; the outer `none` says
-- that `fuel` rounds did not end it.
unfoldable pub scan : ℕ → List ℕ → ℕ → ℕ → Option (Option ℕ)
scan zero p last port = none
scan (suc fuel) p last port =
    let port' = wrap port in
    let rest = scan fuel p last (port' + 1) in
    if nat_beq port last then some none else if contains p port' then rest else some (some port')

abbrev pub take_found : PortMap → Option ℕ → Outcome × PortMap
take_found pm none = (err all_ports_allocated, pm)
take_found pm (some port) = (ok port, record { p = add port pm.p; last = port })

unfoldable pub find_port : ℕ → PortMap → Option (Outcome × PortMap)
find_port fuel pm =
    if nat_beq pm.last 0
    then some
        (ok begin_port_range, record { p = add begin_port_range pm.p; last = begin_port_range })
    else elim (scan fuel pm.p pm.last (pm.last + 1)) [
      | none ↦ none
      | some found ↦ some (take_found pm found)
    ]

-- What `RequestPort` does with the port map of its protocol.
unfoldable pub request_in : ℕ → Str → ℕ → PortMap → Option (Outcome × PortMap)
unfolding find_port
request_in fuel ip zero pm = find_port fuel pm
request_in fuel ip (suc n) pm =
    if contains pm.p (suc n)
    then some (err (port_already_allocated ip (suc n)), pm)
    else some (ok (suc n), record pm { p = add (suc n) pm.p })

abbrev pub ip_text : Option Str → Str
ip_text none = default_ip
ip_text (some ip) = ip

abbrev pub proto_map_at : Str → IpMapping → ProtoMap
proto_map_at ip g = elim (lookup ip g) [ none ↦ new_proto_map | some m ↦ m ]

abbrev put_tcp : Str → ProtoMap → IpMapping → Outcome × PortMap → Outcome × IpMapping
put_tcp ip m g (o, pm) = (o, insert ip (record m { tcp = pm }) g)

abbrev put_udp : Str → ProtoMap → IpMapping → Outcome × PortMap → Outcome × IpMapping
put_udp ip m g (o, pm) = (o, insert ip (record m { udp = pm }) g)

abbrev pub map_some {ℓ κ} : {A : Type ℓ} {B : Type κ} → (A → B) → Option A → Option B
map_some f none = none
map_some f (some a) = some (f a)

unfoldable pub request_port : ℕ → IpMapping → Option Str → Str → ℕ → Option (Outcome × IpMapping)
unfolding request_in
request_port fuel g ip proto port =
    let key = ip_text ip in
    let m = proto_map_at key g in
    if proto == codes "tcp"
    then map_some (put_tcp key m g) (request_in fuel key port m.tcp)
    else if proto == codes "udp"
    then map_some (put_udp key m g) (request_in fuel key port m.udp)
    else some (err unknown_protocol, g)

-- `delete(protomap[proto].p, port)`
abbrev pub free_in : ℕ → PortMap → PortMap
free_in port pm = record pm { p = remove port pm.p }

-- `none` is the panic on `protomap[proto].p`, where the protocol is neither of the two.
unfoldable pub release_port : IpMapping → Option Str → Str → ℕ → Option IpMapping
release_port g ip proto port =
    let key = ip_text ip in
    elim (lookup key g) [
      | none ↦ some g
      | some m ↦
          if proto == codes "tcp"
          then some (insert key (record m { tcp = free_in port m.tcp }) g)
          else if proto == codes "udp"
          then some (insert key (record m { udp = free_in port m.udp }) g)
          else none
    ]

abbrev pub release_all : IpMapping → IpMapping
release_all g = []
