-- ===== src/Network/Bridge/Tests.antt =====
-- The bridge driver's theorems on a small network, with a firewall that keeps a list of rules.
use docker_analysis.Base.{
  ℕ, zero, suc, ◌-◌, ◌<◌, nat_beq, ◌≡◌, ◌≢◌, Bool, true, false, ◌&&◌, ◌||◌, List, [], ◌∷◌, Option,
  none, some, arith, refl, Str, codes, if◌then◌else◌, ap, ◌∙◌, ◌==◌, str_eq, str_beq_iff, not,
}
use docker_analysis.Base.Dict.{lookup, insert}
use docker_analysis.Base.Keys.{contains, add}
use docker_analysis.Archive.Changes.Find.{path_beq}
use docker_analysis.Network.Ip.{Ip, IpNet, network_size}
use docker_analysis.Network.IpAllocator.{
  net_eq, range_of, allocated_at, request_ip, check_ip, release_ip,
}
use docker_analysis.Network.IpAllocator.Search.{HasRoom}
use docker_analysis.Network.IpAllocator.Requests.{IsNet, held}
use docker_analysis.Network.PortMapper.{tcp_addr, Mapper, Host, failed, start_failed, map_port}
use docker_analysis.Network.Bridge.{
  NetworkInterface, Driver, allocate, attempts, get_interface, release,
}
use docker_analysis.Network.Bridge.Laws.{attempts_once}
use docker_analysis.Network.Bridge.Release.{release-allocate, release_stale}
use docker_analysis.Network.Iptables.{Answer, Iptables, raw, has_text}
use docker_analysis.Network.Bridge.Rules.{setup_iptables}
use docker_analysis.Network.Bridge.Rules.InForce.{
  Rule, translation, acceptance, refusal, outgoing, existing, rule_beq, rule_args, Behaves, InForce,
  setup_iptables-InForce,
}
use docker_analysis.Network.Bridge.Setup.{Machine}

abbrev mapper : Mapper
mapper = record { ports = []; mappings = []; nat_rules = []; filter_rules = []; proxies = [] }

abbrev quiet_host : Host
quiet_host = record {
  chain = none;
  nat_fails = λ a. false;
  filter_fails = λ a. false;
  start_fails = true;
}

attempts_once_example :
    attempts 20_000 (λ i. quiet_host) (tcp_addr none 80) none 0 10 (failed start_failed) mapper
    ≡ map_port 20_000 quiet_host (tcp_addr none 80) none 0 mapper
attempts_once_example =
    attempts_once 20_000 (λ i. quiet_host) (tcp_addr none 80) none 9 (failed start_failed) mapper

abbrev bridge_ip : Ip
bridge_ip = record { a = 10; b = 0; c = 0; d = 1 }

abbrev guest_ip : Ip
guest_ip = record { a = 10; b = 0; c = 0; d = 3 }

abbrev lan : IpNet
lan = record { ip = bridge_ip; mask = record { a = 255; b = 255; c = 255; d = 248 } }

lan-IsNet : IsNet lan
lan-IsNet = record {
  ip = record { a = omega arith; b = omega arith; c = omega arith; d = omega arith };
  mask = record { a = omega arith; b = omega arith; c = omega arith; d = omega arith };
}

abbrev driver : Driver
driver = record {
  bridge_iface = codes "docker0";
  bridge_network = lan;
  default_binding_ip = none;
  interfaces = [];
  network_set = [];
  mapper = mapper;
}

room : HasRoom (allocated_at lan []) (range_of lan)
unfolding range_of network_size lookup
room = (omega arith, omega arith, omega arith)

abbrev guest : NetworkInterface
guest = record { ip = guest_ip; port_mappings = [] }

-- Two containers are on record with one address.
abbrev shared : Driver
shared = record driver { interfaces = (codes "a", guest) ∷ (codes "b", guest) ∷ [] }

abbrev allocated : Driver
unfolding allocate request_ip
allocated = (allocate (codes "a") (some guest_ip) driver).1

release-allocate_example :
    (held driver.network_set lan guest_ip ≡ false)
    × (held allocated.network_set lan guest_ip ≡ true)
    × ((s : Driver) × (release (λ i. quiet_host) (codes "a") allocated ≡ some (true, s))
        × (s.mapper ≡ mapper)
        × ((n : IpNet) (y : Ip) → held s.network_set n y ≡ held driver.network_set n y))
unfolding allocate request_ip check_ip contains lookup insert add
    docker_analysis.Network.Bridge.set_interface
release-allocate_example =
    release-allocate (λ i. quiet_host) (codes "a") (some guest_ip) guest_ip driver allocated
      lan-IsNet room refl

abbrev released : Driver
unfolding release_ip
released = record shared { network_set = release_ip [] lan guest_ip }

release_stale_example :
    (get_interface (codes "a") released ≡ some guest)
    × (get_interface (codes "b") released ≡ some guest)
    × (held released.network_set released.bridge_network guest_ip ≡ false)
unfolding release get_interface lookup docker_analysis.Base.str_beq
    docker_analysis.Network.Bridge.unmap_all released
release_stale_example =
    release_stale (λ i. quiet_host) (codes "a") (codes "b") guest guest shared released refl refl
      refl refl

-- A firewall: how often each rule is there.
abbrev Rules : Type 0
Rules = Rule → ℕ

abbrev host_addr_text : Str
host_addr_text = codes "10.0.0.1/29"

abbrev host_bridge : Str
host_bridge = codes "docker0"

abbrev rule_of : List Str → Option Rule
rule_of r =
    if path_beq r (rule_args host_addr_text host_bridge translation)
    then some translation
    else if path_beq r (rule_args host_addr_text host_bridge acceptance)
    then some acceptance
    else if path_beq r (rule_args host_addr_text host_bridge refusal)
    then some refusal
    else if path_beq r (rule_args host_addr_text host_bridge outgoing)
    then some outgoing
    else if path_beq r (rule_args host_addr_text host_bridge existing)
    then some existing
    else none

abbrev on_rule : Str → Rule → Rules → Answer × Rules
on_rule c k w =
    if c == codes "-I"
    then (record { output = []; error = false }, λ q. if rule_beq k q then suc (w q) else w q)
    else if c == codes "-D"
    then (
      record { output = []; error = nat_beq (w k) 0 },
      λ q. if rule_beq k q then w q - 1 else w q,
    )
    else (record { output = []; error = nat_beq (w k) 0 }, w)

unfoldable command : List Str → Rules → Answer × Rules
unfolding path_beq
command [] w = (record { output = []; error = true }, w)
command (c ∷ r) w = elim (rule_of r) [
  | none ↦ (record { output = []; error = true }, w)
  | some k ↦ on_rule c k w
]

abbrev firewall : Iptables Rules
firewall = record { installed = true; supports_xlock = false; command = command }

rule_of-args : (k : Rule) → rule_of (rule_args host_addr_text host_bridge k) ≡ some k
unfolding path_beq docker_analysis.Base.str_beq
rule_of-args translation = refl
rule_of-args acceptance = refl
rule_of-args refusal = refl
rule_of-args outgoing = refl
rule_of-args existing = refl

command-on_rule :
    (c : Str) (k : Rule) (w : Rules)
    → command (c ∷ rule_args host_addr_text host_bridge k) w ≡ on_rule c k w
unfolding command
command-on_rule c k w = rw (command, rule_of-args k) refl

firewall-Behaves : Behaves firewall host_addr_text host_bridge (λ k w. w k)
unfolding docker_analysis.Base.str_beq
firewall-Behaves = record {
  installed = refl;
  checked = λ k w. ap (λ (r : Answer × Rules). r.0.error) (command-on_rule (codes "-C") k w);
  check_keeps = λ k j w. ap (λ (r : Answer × Rules). r.1 j) (command-on_rule (codes "-C") k w);
  inserted = λ k j w fine. ap (λ (r : Answer × Rules). r.1 j) (command-on_rule (codes "-I") k w);
  deleted = λ k j w. ap (λ (r : Answer × Rules). r.1 j) (command-on_rule (codes "-D") k w);
}

-- Containers may talk to each other until the set-up forbids it.
abbrev open_rules : Rules
open_rules q = if rule_beq acceptance q then 1 else 0

abbrev closed_rules : Rules
closed_rules = (setup_iptables firewall host_addr_text host_bridge false open_rules).1

setup_iptables-InForce_example : InForce {W = Rules} (λ k w. w k) false closed_rules
unfolding setup_iptables command path_beq docker_analysis.Base.str_beq raw has_text
    docker_analysis.Network.Iptables.rule_exists
setup_iptables-InForce_example =
    setup_iptables-InForce firewall host_addr_text host_bridge (λ k w. w k) firewall-Behaves false
      open_rules closed_rules (omega arith) refl

-- Every address is parsed as the network of the bridge above, which no route overlaps.
abbrev machine : Machine
machine = record {
  parse_cidr = λ s. some lan;
  nameservers = [];
  routes = some [];
  kernel_version = none;
  create_fails = false;
  no_interface = false;
  add_ip_fails = false;
  link_up_fails = false;
}
