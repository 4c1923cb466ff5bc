-- ===== src/Network/Tests.antt =====
-- The network driver's theorems at concrete states.
use docker_analysis.Base.{
  ℕ, zero, suc, ◌+◌, ◌≤◌, ◌<◌, ◌≡◌, ◌≢◌, ◌↔◌, Bool, true, false, not, ◌&&◌, ◌||◌, List, [], ◌∷◌,
  Option, none, some, arith, refl, inl, inr, if◌then◌else◌, ◌==◌, str_eq, nat_eq, nat_beq, Str,
  codes, ap, sym,
}
use docker_analysis.Base.Dict.{lookup, insert}
use docker_analysis.Base.Text.{contains_byte}
use docker_analysis.Base.Keys.{contains, add, remove}
use docker_analysis.Network.PortAllocator.{
  PortMap, IpMapping, err, all_ports_allocated, find_port, request_port, release_port, new_port_map,
  new_proto_map,
}
use docker_analysis.Network.PortAllocator.Scan.{InRange}
use docker_analysis.Network.PortAllocator.Find.{find_port_full, find_port_hangs}
use docker_analysis.Network.PortAllocator.Requests.{taken, taken-request_port}
use docker_analysis.Network.PortMapper.{
  Addr, tcp_addr, Mapper, Host, failed, start_failed, port_mapped_for_ip, get_key, map_allocated,
  map_port, forward, chain_forward, delete_first,
}
use docker_analysis.Network.PortMapper.Laws.{taken-map_allocated}
use docker_analysis.Network.PortMapper.Retry.{map_after_failed_start}

abbrev busy_map : PortMap
busy_map = record { p = 49154 ∷ 49153 ∷ []; last = 49154 }

find_port_full_example :
    (find_port 20_000 busy_map ≡ some (err all_ports_allocated, busy_map))
    ↔ ((q : ℕ) → InRange q → q ≢ 49154 → contains busy_map.p q ≡ true)
find_port_full_example = find_port_full 20_000 busy_map (omega arith) (omega arith) (omega arith)

unfoldable ports_from : ℕ → ℕ → List ℕ
ports_from zero k = []
ports_from (suc n) k = k ∷ ports_from n (k + 1)

contains-ports_from : (n k q : ℕ) → k ≤ q → q < k + n → contains (ports_from n k) q ≡ true
unfolding contains ports_from
contains-ports_from zero k q low high = absurd (omega arith)
contains-ports_from (suc n) k q low high = ground (arith, contains-ports_from n (k + 1) q)

abbrev full_map : PortMap
full_map = record { p = ports_from 16383 49153; last = 49153 }

find_port_hangs_example : find_port 30_000 full_map ≡ none
find_port_hangs_example =
    find_port_hangs 30_000 full_map refl
      (λ q r. contains-ports_from 16383 49153 q (omega arith) (omega arith))

abbrev web : IpMapping
web = (codes "0.0.0.0", record { tcp = record { p = 80 ∷ []; last = 0 }; udp = new_port_map }) ∷ []

taken-request_port_example : taken web (codes "0.0.0.0") (codes "tcp") 80 ≡ (
    ((codes "0.0.0.0" == codes "0.0.0.0") && (codes "tcp" == codes "tcp") && nat_beq 80 80)
    || taken [] (codes "0.0.0.0") (codes "tcp") 80)
unfolding request_port contains add lookup insert docker_analysis.Base.str_beq
taken-request_port_example =
    taken-request_port 0 [] web none (codes "tcp") 80 80 refl (codes "0.0.0.0") (codes "tcp") 80

abbrev no_web : IpMapping
no_web = (codes "0.0.0.0", new_proto_map) ∷ []

abbrev guest_addr : Addr
guest_addr = tcp_addr (some (codes "172.17.0.2")) 80

-- A host where no proxy starts.
abbrev no_proxies : Host
no_proxies = record {
  chain = some (record { name = codes "DOCKER"; bridge = codes "docker0" });
  nat_fails = λ a. false;
  filter_fails = λ a. false;
  start_fails = true;
}

abbrev fresh_mapper : Mapper
fresh_mapper = record { ports = []; mappings = []; nat_rules = []; filter_rules = []; proxies = [] }

abbrev left_behind : Mapper
left_behind = record {
  ports = no_web;
  mappings =
      (
        codes "<nil>:80/tcp",
        record { proto = codes "tcp"; host = tcp_addr none 80; container = guest_addr },
      )
      ∷ [];
  nat_rules = [];
  filter_rules = [];
  proxies = [];
}

taken-map_allocated_example :
    taken no_web (codes "0.0.0.0") (codes "tcp") 80 ≡ taken [] (codes "0.0.0.0") (codes "tcp") 80
unfolding request_port map_allocated contains add remove lookup insert docker_analysis.Base.str_beq
    release_port get_key docker_analysis.Base.Decimal.print forward chain_forward delete_first taken
    contains_byte
taken-map_allocated_example =
    taken-map_allocated 0 no_proxies guest_addr none (codes "tcp") 80 80 web start_failed
      fresh_mapper left_behind refl refl refl (codes "0.0.0.0") (codes "tcp") 80

map_after_failed_start_example :
    (s : Mapper) × (map_port 0 no_proxies guest_addr none 80 left_behind
      ≡ some (failed port_mapped_for_ip, s))
unfolding request_port map_allocated contains add remove lookup insert docker_analysis.Base.str_beq
    release_port get_key docker_analysis.Base.Decimal.print map_port forward chain_forward
    delete_first contains_byte
map_after_failed_start_example =
    map_after_failed_start 0 0 no_proxies no_proxies guest_addr none 79 fresh_mapper left_behind
      refl
