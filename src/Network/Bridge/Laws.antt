-- ===== src/Network/Bridge/Laws.antt =====
-- What the jobs of the bridge driver keep, over the laws of the two allocators.
use docker_analysis.Base.{
  ℕ, suc, ◌≡◌, inl, inr, Bool, false, Option, some, str_eq, Str, arith, refl, Option-cases,
  Bool-cases, nat_eq,
}
use docker_analysis.Base.Dict.{lookup}
use docker_analysis.Network.IpAllocator.{net_eq}
use docker_analysis.Network.PortAllocator.{
  IpMapping, PortMap, Outcome, err, Error, all_ports_allocated, unknown_protocol,
  port_already_allocated, find_port, request_in, request_port, take_found, proto_map_at, ip_text,
}
use docker_analysis.Network.PortAllocator as Ports
use docker_analysis.Network.PortMapper.{
  Addr, Mapper, MapError, port_mapped_for_ip, forward_failed, start_failed, port_error, Host,
  Mapped, mapped, failed, give_up, start_proxy, map_allocated, map_port, forward, delete_rule,
  add_rule, get_key, host_addr, store_mapping, proto_of_addr, new_mapping,
}
use docker_analysis.Network.Bridge.{tries_again, attempts}

abbrev retried : Mapped → Bool
retried (mapped a) = false
retried (failed e) = tries_again 0 e

find_port-err :
    (fuel : ℕ) (pm pm' : PortMap) (e : Error)
    → find_port fuel pm ≡ some (err e, pm')
    → e ≡ all_ports_allocated
unfolding find_port
find_port-err fuel pm pm' e h = ground arith

request_port-err :
    (fuel : ℕ) (g g' : IpMapping) (ip : Option Str) (proto : Str) (e : Error)
    → request_port fuel g ip proto 0 ≡ some (err e, g')
    → tries_again 0 (port_error e) ≡ false
unfolding request_port request_in
request_port-err fuel g g' ip proto e h =
    let m = proto_map_at (ip_text ip) g in
    elim (Option-cases (find_port fuel m.tcp)) [
      | inl t ↦ elim (Option-cases (find_port fuel m.udp)) [
        | inl u ↦ ground (arith, t, u)
        | inr ((o, pm), u) ↦ ground (arith, t, u, find_port-err fuel m.udp pm e)
      ]
      | inr ((o, pm), t) ↦ elim (Option-cases (find_port fuel m.udp)) [
        | inl u ↦ ground (arith, t, u, find_port-err fuel m.tcp pm e)
        | inr ((o', pm'), u) ↦
            ground (arith, t, u, find_port-err fuel m.tcp pm e, find_port-err fuel m.udp pm' e)
      ]
    ]

give_up-retried :
    (ip : Option Str) (proto : Str) (port : ℕ) (e : MapError) (s s' : Mapper) (o : Mapped)
    → give_up ip proto port e s ≡ some (o, s')
    → o ≡ failed e
unfolding give_up
give_up-retried ip proto port e s s' o h = ground arith

start_proxy-retried :
    (h : Host) (c : Addr) (ip : Option Str) (proto : Str) (port : ℕ) (s s' : Mapper) (o : Mapped)
    → start_proxy h c ip proto port s ≡ some (o, s')
    → retried o ≡ false
unfolding start_proxy
start_proxy-retried h c ip proto port s s' o e = elim (Bool-cases h.start_fails) [
  | inl fails ↦
      let stored = store_mapping c ip proto port s in
      let undone = (forward h delete_rule (new_mapping c ip proto port) stored).1 in
      let given : give_up ip proto port start_failed undone ≡ some (o, s') = ground (arith, e) in
      rw (give_up-retried ip proto port start_failed undone s' o given) refl
  | inr works ↦ ground (arith, e)
]

map_allocated-retried :
    (h : Host) (c : Addr) (ip : Option Str) (proto : Str) (port : ℕ) (s s' : Mapper) (o : Mapped)
    → map_allocated h c ip proto port s ≡ some (o, s')
    → retried o ≡ false
unfolding map_allocated
map_allocated-retried h c ip proto port s s' o e =
    let key = get_key (host_addr c ip port) in
    let m = new_mapping c ip proto port in
    elim (Option-cases (lookup key s.mappings)) [
      | inr (_, held) ↦
          let given : give_up ip proto port port_mapped_for_ip s ≡ some (o, s') =
            ground (arith, held) in
          rw (give_up-retried ip proto port port_mapped_for_ip s s' o given) refl
      | inl free ↦ elim (Bool-cases (forward h add_rule m s).0) [
        | inl bad ↦
            let given : give_up ip proto port forward_failed (forward h add_rule m s).1
                ≡ some (o, s') =
              ground (arith, free) in
            rw (give_up-retried ip proto port forward_failed (forward h add_rule m s).1 s' o given)
              refl
        | inr fine ↦
            start_proxy-retried h c ip proto port (forward h add_rule m s).1 s' o
              (ground (arith, free))
      ]
    ]

map_port-retried :
    (fuel : ℕ) (h : Host) (c : Addr) (ip : Option Str) (m m' : Mapper) (o : Mapped)
    → map_port fuel h c ip 0 m ≡ some (o, m')
    → retried o ≡ false
unfolding map_port
map_port-retried fuel h c ip m m' o e = elim (Option-cases (proto_of_addr c)) [
  | inl none_proto ↦ ground (arith, none_proto)
  | inr (proto, p) ↦ elim (Option-cases (request_port fuel m.ports ip proto 0)) [
    | inl q ↦ absurd (ground (arith, p, q))
    | inr ((err x, ports), q) ↦
        ground (arith, p, q, request_port-err fuel m.ports ports ip proto x q)
    | inr ((Ports.ok port, ports), q) ↦
        map_allocated-retried h c ip proto port (record m { ports = ports }) m' o
          (ground (arith, p, q))
  ]
]

-- Where no host port is asked for, the loop of ten attempts makes one: no error that can then come
-- is one after which it tries another port.
pub attempts_once :
    (fuel : ℕ) (host : ℕ → Host) (c : Addr) (ip : Option Str) (n : ℕ) (last : Mapped) (m : Mapper)
    → attempts fuel host c ip 0 (suc n) last m ≡ map_port fuel (host n) c ip 0 m
unfolding attempts
attempts_once fuel host c ip n last m = elim (Option-cases (map_port fuel (host n) c ip 0 m)) [
  | inl e ↦ ground (arith, e)
  | inr ((mapped a, m'), e) ↦ ground (arith, e)
  | inr ((failed x, m'), e) ↦
      ground (arith, e, map_port-retried fuel (host n) c ip m m' (failed x) e)
]
