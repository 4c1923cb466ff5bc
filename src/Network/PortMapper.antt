-- ===== src/Network/PortMapper.antt =====
-- daemon/networkdriver/portmapper/mapper.go, with Chain.Forward of pkg/iptables/iptables.go. Each
-- entry point runs under one lock, so a call is a function of the mapper's state and the port
-- allocator's. Whether the `iptables` commands and the start of a proxy process fail are arguments.
pub mod Laws
pub mod Retry
use docker_analysis.Base.{
  ℕ, ◌≡◌, Bool, true, false, ◌&&◌, ◌||◌, List, [], ◌∷◌, ◌++◌, Option, none, some, if◌then◌else◌,
  ◌==◌, str_eq, Str, codes,
}
use docker_analysis.Base.Decimal.{print}
use docker_analysis.Base.Dict.{lookup, insert, delete}
use docker_analysis.Base.Keys.{add, remove}
use docker_analysis.Base.Text.{contains_byte}
use docker_analysis.Network.PortAllocator.{IpMapping, Error, Outcome, request_port, release_port}
use docker_analysis.Network.PortAllocator as Ports

-- A `net.Addr`. A nil IP is `none`.
pub data Addr : Type 0 where
  tcp_addr udp_addr : Option Str → ℕ → Addr
  other_addr : Addr

pub record Mapping : Type 0 where
  pub proto : Str
  pub host : Addr
  pub container : Addr

pub data Action : Type 0 where
  add_rule delete_rule : Action

-- `proxies` are the keys whose userland proxy runs. `nat_rules` are the rules of the chain in the nat
-- table, and `filter_rules` those put into the FORWARD chain, each in order.
pub record Mapper : Type 0 where
  pub ports : IpMapping
  pub mappings : List (Str × Mapping)
  pub nat_rules : List Str
  pub filter_rules : List Str
  pub proxies : List Str

pub data MapError : Type 0 where
  unknown_backend_address_type port_mapped_for_ip port_not_mapped forward_failed start_failed :
      MapError
  port_error : Error → MapError

-- `iptables.Chain`
pub record Chain : Type 0 where
  pub name : Str
  pub bridge : Str

-- `nat_fails` and `filter_fails` tell whether the first and the second command of `Forward` end with
-- an error or with output.
pub record Host : Type 0 where
  pub chain : Option Chain
  pub nat_fails : Action → Bool
  pub filter_fails : Action → Bool
  pub start_fails : Bool

pub data Mapped : Type 0 where
  mapped : Addr → Mapped
  failed : MapError → Mapped

abbrev pub proto_of_addr : Addr → Option Str
proto_of_addr (tcp_addr ip port) = some (codes "tcp")
proto_of_addr (udp_addr ip port) = some (codes "udp")
proto_of_addr other_addr = none

-- `ip.String()`
abbrev pub nil_or_text : Option Str → Str
nil_or_text none = codes "<nil>"
nil_or_text (some ip) = ip

abbrev pub key_text : Option Str → ℕ → Str → Str
key_text ip port proto = nil_or_text ip ++ b':' ∷ (print port ++ b'/' ∷ proto)

unfoldable pub get_key : Addr → Str
get_key (tcp_addr ip port) = key_text ip port (codes "tcp")
get_key (udp_addr ip port) = key_text ip port (codes "udp")
get_key other_addr = []

abbrev pub get_ip_and_port : Addr → Option Str × ℕ
get_ip_and_port (tcp_addr ip port) = (ip, port)
get_ip_and_port (udp_addr ip port) = (ip, port)
get_ip_and_port other_addr = (none, 0)

-- The address of the host, of the container address's type.
abbrev pub host_addr : Addr → Option Str → ℕ → Addr
host_addr (tcp_addr _ _) ip port = tcp_addr ip port
host_addr (udp_addr _ _) ip port = udp_addr ip port
host_addr other_addr ip port = other_addr

-- `net.JoinHostPort`
abbrev pub join_host_port : Str → ℕ → Str
join_host_port host port =
    if contains_byte b':' host
    then b'[' ∷ host ++ codes "]:" ++ print port
    else host ++ b':' ∷ print port

-- The destination of a rule: any address for an unspecified one.
abbrev pub destination : Option Str → Str
destination none = codes "<nil>"
destination (some ip) = if (ip == codes "0.0.0.0") || (ip == codes "::") then codes "0/0" else ip

-- The text of the rule in the nat table, from the protocol on.
abbrev pub nat_rule : Chain → Mapping → Str
nat_rule c m =
    let (ip, port) = get_ip_and_port m.host in
    let (container_ip, container_port) = get_ip_and_port m.container in
    codes "-p "
    ++ m.proto
    ++ codes " -d "
    ++ destination ip
    ++ codes " --dport "
    ++ print port
    ++ codes " ! -i "
    ++ c.bridge
    ++ codes " -j DNAT --to-destination "
    ++ join_host_port (nil_or_text container_ip) container_port

-- The text of the rule in the FORWARD chain.
abbrev pub filter_rule : Chain → Mapping → Str
filter_rule c m =
    let (container_ip, container_port) = get_ip_and_port m.container in
    codes "! -i "
    ++ c.bridge
    ++ codes " -o "
    ++ c.bridge
    ++ codes " -p "
    ++ m.proto
    ++ codes " -d "
    ++ nil_or_text container_ip
    ++ codes " --dport "
    ++ print container_port
    ++ codes " -j ACCEPT"

-- A deletion takes the first rule that matches.
unfoldable pub delete_first : Str → List Str → List Str
delete_first rule [] = []
delete_first rule (x ∷ xs) = let rest = delete_first rule xs in if x == rule then xs else x ∷ rest

-- "-A" in the nat table, and "-I" in the FORWARD chain.
abbrev pub change_nat : Action → Str → List Str → List Str
change_nat add_rule rule rules = rules ++ rule ∷ []
change_nat delete_rule rule rules = delete_first rule rules

abbrev pub change_filter : Action → Str → List Str → List Str
change_filter add_rule rule rules = rule ∷ rules
change_filter delete_rule rule rules = delete_first rule rules

-- `Chain.Forward`: whether it fails, and the state after it. A failure of the second command leaves
-- the effect of the first one.
unfoldable pub chain_forward : Host → Action → Mapping → Chain → Mapper → Bool × Mapper
chain_forward h a m c s =
    if h.nat_fails a
    then (true, s)
    else let s₁ = record s { nat_rules = change_nat a (nat_rule c m) s.nat_rules } in
      if h.filter_fails a
      then (true, s₁)
      else (false, record s₁ { filter_rules = change_filter a (filter_rule c m) s₁.filter_rules })

-- `forward`: there is nothing to do without a chain.
unfoldable pub forward : Host → Action → Mapping → Mapper → Bool × Mapper
forward h a m s = elim h.chain [ none ↦ (false, s) | some c ↦ chain_forward h a m c s ]

-- The mapping that `Map` makes.
abbrev pub new_mapping : Addr → Option Str → Str → ℕ → Mapping
new_mapping container ip proto port = record {
  proto = proto;
  host = host_addr container ip port;
  container = container;
}

-- The deferred release of the port. `none` is a panic of the allocator.
unfoldable pub give_up : Option Str → Str → ℕ → MapError → Mapper → Option (Mapped × Mapper)
give_up ip proto port e s = elim (release_port s.ports ip proto port) [
  | none ↦ none
  | some ports ↦ some (failed e, record s { ports = ports })
]

-- `currentMappings[key] = m`
abbrev pub store_mapping : Addr → Option Str → Str → ℕ → Mapper → Mapper
store_mapping container ip proto port s = record s {
  mappings =
      insert (get_key (host_addr container ip port)) (new_mapping container ip proto port)
        s.mappings;
}

-- What follows the forwarding rule: the mapping is stored before the proxy starts.
unfoldable pub start_proxy : Host → Addr → Option Str → Str → ℕ → Mapper → Option (Mapped × Mapper)
unfolding give_up forward
start_proxy h container ip proto port s =
    let host = host_addr container ip port in
    let s' = store_mapping container ip proto port s in
    if h.start_fails
    then give_up ip proto port start_failed
        (forward h delete_rule (new_mapping container ip proto port) s').1
    else some (mapped host, record s' { proxies = add (get_key host) s'.proxies })

-- `Map` from the test of the key on.
unfoldable pub map_allocated :
    Host → Addr → Option Str → Str → ℕ → Mapper → Option (Mapped × Mapper)
unfolding give_up forward start_proxy
map_allocated h container ip proto port s =
    let key = get_key (host_addr container ip port) in
    elim (lookup key s.mappings) [
      | some _ ↦ give_up ip proto port port_mapped_for_ip s
      | none ↦
          let (bad, s') = forward h add_rule (new_mapping container ip proto port) s in
          elim bad [
            | true ↦ give_up ip proto port forward_failed s'
            | false ↦ start_proxy h container ip proto port s'
          ]
    ]

-- `Map`, with the fuel of the port search.
unfoldable pub map_port : ℕ → Host → Addr → Option Str → ℕ → Mapper → Option (Mapped × Mapper)
unfolding map_allocated
map_port fuel h container ip host_port s = elim (proto_of_addr container) [
  | none ↦ some (failed unknown_backend_address_type, s)
  | some proto ↦ elim (request_port fuel s.ports ip proto host_port) [
    | none ↦ none
    | some (Ports.err e, ports) ↦ some (failed (port_error e), record s { ports = ports })
    | some (Ports.ok port, ports) ↦
        map_allocated h container ip proto port (record s { ports = ports })
  ]
]

-- The release by the type of the address.
unfoldable pub release_addr : Addr → Mapper → Option (Option MapError × Mapper)
release_addr (tcp_addr ip port) s = elim (release_port s.ports ip (codes "tcp") port) [
  | none ↦ none
  | some ports ↦ some (none, record s { ports = ports })
]
release_addr (udp_addr ip port) s = elim (release_port s.ports ip (codes "udp") port) [
  | none ↦ none
  | some ports ↦ some (none, record s { ports = ports })
]
release_addr other_addr s = some (none, s)

-- `Unmap`: nil is an inner `none`.
unfoldable pub unmap : Host → Addr → Mapper → Option (Option MapError × Mapper)
unfolding forward release_addr
unmap h host s =
    let key = get_key host in
    elim (lookup key s.mappings) [
      | none ↦ some (some port_not_mapped, s)
      | some data' ↦
          let s₁ = record s { proxies = remove key s.proxies; mappings = delete key s.mappings } in
          let (bad, s₂) = forward h delete_rule data' s₁ in
          elim bad [ true ↦ some (some forward_failed, s₂) | false ↦ release_addr host s₂ ]
    ]
