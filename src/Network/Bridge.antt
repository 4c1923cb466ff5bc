-- ===== src/Network/Bridge.antt =====
-- daemon/networkdriver/bridge/driver.go: the jobs on the network interfaces of containers, over the
-- IP allocator and the port mapper. `net.ParseIP` and the host, call by call, are arguments.
mod Tests
pub mod Laws
pub mod Release
pub mod Setup
pub mod Rules
use docker_analysis.Base.{
  ℕ, zero, suc, ◌+◌, ◌-◌, ◌/◌, ◌%◌, ◌≡◌, Bool, true, false, ◌&&◌, ◌||◌, List, [], ◌∷◌, ◌++◌, Option,
  none, some, if◌then◌else◌, ◌==◌, str_eq, Str, codes, ltb, nat_beq, is_empty,
}
use docker_analysis.Base.Decimal.{print}
use docker_analysis.Base.Dict.{lookup, insert}
use docker_analysis.Base.Int.{pos}
use docker_analysis.Engine.Env.{Env, set, set_int64}
use docker_analysis.Network.Ip.{Ip, IpNet}
use docker_analysis.Network.IpAllocator.{
  NetworkSet, IpOutcome, ok, no_available_ips, ip_already_allocated, request_ip, release_ip,
}
use docker_analysis.Network.PortAllocator.{
  Error, all_ports_allocated, unknown_protocol, port_already_allocated,
}
use docker_analysis.Network.PortMapper.{
  Addr, tcp_addr, udp_addr, other_addr, Mapper, MapError, unknown_backend_address_type,
  port_mapped_for_ip, port_not_mapped, forward_failed, start_failed, port_error, Host, Mapped,
  mapped, failed, nil_or_text, map_port, unmap,
}

pub record NetworkInterface : Type 0 where
  pub ip : Ip
  pub port_mappings : List Addr

-- The variables of the package and of the two packages below it.
pub record Driver : Type 0 where
  pub bridge_iface : Str
  pub bridge_network : IpNet
  pub default_binding_ip : Option Str
  pub interfaces : List (Str × NetworkInterface)
  pub network_set : NetworkSet
  pub mapper : Mapper

-- `IP.String()`
unfoldable pub ip_string : Ip → Str
ip_string x = print x.a ++ (b'.' ∷ (print x.b ++ (b'.' ∷ (print x.c ++ (b'.' ∷ print x.d)))))

abbrev hex_digit : ℕ → ℕ
hex_digit n = if ltb n 10 then b'0' + n else (b'a' + n) - 10

abbrev pub hex_byte : ℕ → Str
hex_byte n = hex_digit (n / 16) ∷ hex_digit (n % 16) ∷ []

-- `Mask.String()`
unfoldable pub mask_string : Ip → Str
mask_string m = hex_byte m.a ++ (hex_byte m.b ++ (hex_byte m.c ++ hex_byte m.d))

-- The ones of a byte that has no one after a zero.
unfoldable pub byte_ones : ℕ → Option ℕ
byte_ones n =
    if nat_beq n 0
    then some 0
    else if nat_beq n 128
    then some 1
    else if nat_beq n 192
    then some 2
    else if nat_beq n 224
    then some 3
    else if nat_beq n 240
    then some 4
    else if nat_beq n 248
    then some 5
    else if nat_beq n 252
    then some 6
    else if nat_beq n 254
    then some 7
    else if nat_beq n 255
    then some 8
    else none

unfoldable pub ones_of : List ℕ → Option ℕ
unfolding byte_ones
ones_of [] = some 0
ones_of (n ∷ ns) = elim (byte_ones n) [
  | none ↦ none
  | some k ↦ elim (ones_of ns) [
    | none ↦ none
    | some later ↦ if nat_beq k 8 || nat_beq later 0 then some (k + later) else none
  ]
]

-- The first result of `Mask.Size()`: 0 for a mask that is not ones before zeros.
unfoldable pub mask_size : Ip → ℕ
unfolding ones_of
mask_size m = elim (ones_of (m.a ∷ m.b ∷ m.c ∷ m.d ∷ [])) [ none ↦ 0 | some n ↦ n ]

unfoldable pub set_interface : Str → NetworkInterface → Driver → Driver
set_interface id n s = record s { interfaces = insert id n s.interfaces }

unfoldable pub get_interface : Str → Driver → Option NetworkInterface
get_interface id s = lookup id s.interfaces

-- What `Allocate` writes to the job's output.
unfoldable pub allocated_env : Ip → Driver → Env
unfolding set set_int64 mask_string mask_size ip_string
allocated_env ip s = set_int64 (codes "IPPrefixLen") (pos (mask_size s.bridge_network.mask)) (
    set (codes "Bridge") s.bridge_iface (
      set (codes "Gateway") (ip_string s.bridge_network.ip) (
        set (codes "Mask") (mask_string s.bridge_network.mask)
          (set (codes "IP") (ip_string ip) []))))

abbrev pub give_interface : Str → IpOutcome → Driver → Option Ip × Driver
give_interface id (ok ip) s = (some ip, set_interface id (record { ip = ip; port_mappings = [] }) s)
give_interface id no_available_ips s = (none, s)
give_interface id ip_already_allocated s = (none, s)

-- `Allocate` with the requested address as `net.ParseIP` gives it. The address that the container
-- gets, or `none` for an error.
unfoldable pub allocate : Str → Option Ip → Driver → Option Ip × Driver
unfolding set_interface
allocate id requested s =
    let (o, set') = request_ip s.network_set s.bridge_network requested in
    give_interface id o (record s { network_set = set' })

-- The loop of `Release`: an error of `Unmap` is only logged. `none` is a panic.
unfoldable pub unmap_all : (ℕ → Host) → ℕ → List Addr → Mapper → Option Mapper
unmap_all host i [] m = some m
unmap_all host i (nat ∷ nats) m = elim (unmap (host i) nat m) [
  | none ↦ none
  | some (_, m') ↦ unmap_all host (suc i) nats m'
]

-- `Release`. The outer `none` is a panic; `false` is the error for an unknown container. The entry
-- of the container stays.
unfoldable pub release : (ℕ → Host) → Str → Driver → Option (Bool × Driver)
unfolding get_interface unmap_all
release host id s = elim (get_interface id s) [
  | none ↦ some (false, s)
  | some n ↦ elim (unmap_all host 0 n.port_mappings s.mapper) [
    | none ↦ none
    | some m ↦ some (
      true,
      record s { mapper = m; network_set = release_ip s.network_set s.bridge_network n.ip },
    )
  ]
]

abbrev pub max_allocated_port_attempts : ℕ
max_allocated_port_attempts = 10

-- Whether the loop tries again: a port that was chosen by the allocator is allocated already.
abbrev pub tries_again : ℕ → MapError → Bool
tries_again host_port (port_error (port_already_allocated ip port)) = nat_beq host_port 0
tries_again host_port (port_error all_ports_allocated) = false
tries_again host_port (port_error unknown_protocol) = false
tries_again host_port unknown_backend_address_type = false
tries_again host_port port_mapped_for_ip = false
tries_again host_port port_not_mapped = false
tries_again host_port forward_failed = false
tries_again host_port start_failed = false

-- The loop of `AllocatePort` with `n` attempts left, `last` being the result of the one before.
unfoldable pub attempts :
    ℕ → (ℕ → Host) → Addr → Option Str → ℕ → ℕ → Mapped → Mapper → Option (Mapped × Mapper)
attempts fuel host container ip host_port zero last m = some (last, m)
attempts fuel host container ip host_port (suc n) last m =
    elim (map_port fuel (host n) container ip host_port m) [
      | none ↦ none
      | some (mapped a, m') ↦ some (mapped a, m')
      | some (failed e, m') ↦
          let again = attempts fuel host container ip host_port n (failed e) m' in
          if tries_again host_port e then again else some (failed e, m')
    ]

-- The container's address, or `none` for a protocol that is neither.
unfoldable pub container_addr : Str → Ip → ℕ → Option Addr
unfolding ip_string
container_addr proto ip port =
    if proto == codes "tcp"
    then some (tcp_addr (some (ip_string ip)) port)
    else if proto == codes "udp"
    then some (udp_addr (some (ip_string ip)) port)
    else none

-- What `AllocatePort` writes to the job's output.
unfoldable pub port_env : Addr → Env
unfolding set set_int64
port_env (tcp_addr ip port) =
    set_int64 (codes "HostPort") (pos port) (set (codes "HostIP") (nil_or_text ip) [])
port_env (udp_addr ip port) =
    set_int64 (codes "HostPort") (pos port) (set (codes "HostIP") (nil_or_text ip) [])
port_env other_addr = []

-- The environment of the job.
pub record PortRequest : Type 0 where
  pub id : Str
  pub host_ip : Str
  pub host_port : ℕ
  pub container_port : ℕ
  pub proto : Str

abbrev pub binding_ip : (Str → Option Str) → PortRequest → Driver → Option Str
binding_ip parse_ip r s = if is_empty r.host_ip then s.default_binding_ip else parse_ip r.host_ip

-- The end of `AllocatePort`. The loop has made an attempt, so that it has a result.
abbrev pub keep_mapping :
    Str → NetworkInterface → Option (Mapped × Mapper) → Driver → Option (Option Addr × Driver)
keep_mapping id n none s = none
keep_mapping id n (some (failed e, m)) s = some (none, record s { mapper = m })
keep_mapping id n (some (mapped a, m)) s = some (
  some a,
  set_interface id (record n { port_mappings = n.port_mappings ++ a ∷ [] })
      (record s { mapper = m }),
)

-- `AllocatePort` of a host port that is not negative, with the fuel of the port search. The outer
-- `none` is a panic, as it is for an unknown container and a protocol that is known; the inner one
-- is an error.
unfoldable pub allocate_port :
    ℕ → (Str → Option Str) → (ℕ → Host) → PortRequest → Driver → Option (Option Addr × Driver)
unfolding get_interface set_interface attempts container_addr
allocate_port fuel parse_ip host r s = elim (get_interface r.id s) [
  | none ↦ if (r.proto == codes "tcp") || (r.proto == codes "udp") then none else some (none, s)
  | some n ↦ elim (container_addr r.proto n.ip r.container_port) [
    | none ↦ some (none, s)
    | some container ↦
        keep_mapping r.id n
          (attempts fuel host container (binding_ip parse_ip r s) r.host_port
            max_allocated_port_attempts (failed start_failed) s.mapper)
          s
  ]
]
