-- ===== src/Network/Bridge/Release.antt =====
-- `Allocate` and `Release` against the addresses that are held.
use docker_analysis.Base.{
  ℕ, ◌≡◌, true, false, ◌&&◌, ◌||◌, [], Option, some, if◌then◌else◌, ◌==◌, str_eq, Str, not, arith,
  refl, ap, ◌∙◌, Option-cases, Bool-cases, sym, nat_eq, eq_refl, nat_beq_iff, subst, inl, inr,
}
use docker_analysis.Base.Keys.{contains}
use docker_analysis.Base.Dict.{lookup-insert}
use docker_analysis.Network.Ip.{Ip, IpNet}
use docker_analysis.Network.IpAllocator.{
  NetworkSet, IpOutcome, ok, no_available_ips, ip_already_allocated, request_ip, release_ip,
  get_position, net_eq, net_beq_iff, allocated_at, range_of,
}
use docker_analysis.Network.IpAllocator.Search.{HasRoom}
use docker_analysis.Network.IpAllocator.Requests.{held, request_ip-held, held-release_ip, IsNet}
use docker_analysis.Network.PortMapper.{Host}
use docker_analysis.Network.Bridge.{
  NetworkInterface, Driver, set_interface, get_interface, give_interface, allocate, unmap_all,
  release,
}

get_interface-set_interface :
    (id j : Str) (n : NetworkInterface) (s : Driver)
    → get_interface j (set_interface id n s) ≡ (if id == j then some n else get_interface j s)
unfolding get_interface set_interface
get_interface-set_interface id j n s = lookup-insert id j n s.interfaces

abbrev placed : Str → Ip → NetworkSet → Driver → Driver
placed id x t s =
    set_interface id (record { ip = x; port_mappings = [] }) (record s { network_set = t })

allocate-eq_some :
    (id : Str) (x : Ip) (s s' : Driver) (r : IpOutcome × NetworkSet)
    → give_interface id r.0 (record s { network_set = r.1 }) ≡ (some x, s')
    → (t : NetworkSet) × (r ≡ (ok x, t)) × (s' ≡ placed id x t s)
allocate-eq_some id x s s' (ok y, t) h = (t, ground arith, ground arith)
allocate-eq_some id x s s' (no_available_ips, t) h = absurd (ground arith)
allocate-eq_some id x s s' (ip_already_allocated, t) h = absurd (ground arith)

release-placed :
    (host : ℕ → Host) (id : Str) (x : Ip) (t : NetworkSet) (s : Driver)
    → release host id (placed id x t s)
      ≡ some (true, record (placed id x t s) { network_set = release_ip t s.bridge_network x })
unfolding release unmap_all set_interface get_interface
release-placed host id x t s =
    ground
      (arith, lookup-insert id id (record { ip = x; port_mappings = [] }) s.interfaces, eq_refl id)

given_back :
    (t₀ t : NetworkSet) (n k : IpNet) (x y : Ip)
    → held t₀ n x ≡ false
    → held t k y ≡ (((n == k) && (get_position n x == get_position n y)) || held t₀ k y)
    → held (release_ip t n x) k y ≡ held t₀ k y
unfolding held
given_back t₀ t n k x y free now = elim (Bool-cases (n == k)) [
  | inr other ↦ held-release_ip t n k x y ∙ ground (arith, other)
  | inl same ↦
      let e : n ≡ k = (net_beq_iff n k).0 same in
      elim (Bool-cases (get_position n x == get_position n y)) [
        | inl p ↦
            let q : get_position n x ≡ get_position n y = (nat_beq_iff _ _).0 p in
            let free' : held t₀ n y ≡ false = ap (contains (allocated_at n t₀).p) (sym q) ∙ free in
            held-release_ip t n k x y
            ∙ subst
                (λ j.
                  (held t j y && not ((n == j) && (get_position n x == get_position j y)))
                  ≡ held t₀ j y)
                e (ground (arith, p, free', eq_refl n))
        | inr p ↦
            held-release_ip t n k x y
            ∙ subst
                (λ j.
                  (held t j y && not ((n == j) && (get_position n x == get_position j y)))
                  ≡ held t₀ j y)
                e
                (ground (
                  arith,
                  p,
                  subst
                      (λ j.
                        held t j y
                        ≡ (((n == j) && (get_position n x == get_position n y)) || held t₀ j y))
                      (sym e) now,
                ))
      ]
]

-- On a bridge network whose bytes are in range, that has a usable range of 1 to 2 ^ 31 - 1 positions,
-- and whose last position handed out is not negative as an int32: a container that gets an address,
-- asked for or not, is given one that was not held, and it is held from then on. Its release with no
-- port mapped in between gives it back: the same addresses are held as before, and the mapper is as
-- before.
pub release-allocate :
    (host : ℕ → Host) (id : Str) (wanted : Option Ip) (x : Ip) (s s' : Driver)
    → IsNet s.bridge_network
    → HasRoom (allocated_at s.bridge_network s.network_set) (range_of s.bridge_network)
    → allocate id wanted s ≡ (some x, s')
    → (held s.network_set s.bridge_network x ≡ false)
      × (held s'.network_set s.bridge_network x ≡ true)
      × ((s'' : Driver) × (release host id s' ≡ some (true, s''))
          × (s''.mapper ≡ s.mapper)
          × ((n : IpNet) (y : Ip) → held s''.network_set n y ≡ held s.network_set n y))
unfolding allocate set_interface
release-allocate host id wanted x s s' net room h =
    let (t, r, e) =
      allocate-eq_some id x s s' (request_ip s.network_set s.bridge_network wanted) h in
    let (free, now) = request_ip-held s.network_set t s.bridge_network wanted x net room r in
    rw e (
      free,
      ground (arith, now s.bridge_network x, eq_refl s.bridge_network),
      (
        record (placed id x t s) { network_set = release_ip t s.bridge_network x },
        release-placed host id x t s,
        refl,
        λ n y. given_back s.network_set t s.bridge_network n x y free (now n y),
      ),
    )

-- `Release` keeps the entry of the container, so that it can be released again, and every release
-- frees the address, also when another container has it by then.
pub release_stale :
    (host : ℕ → Host) (id other : Str) (n m : NetworkInterface) (s s' : Driver)
    → get_interface id s ≡ some n
    → get_interface other s ≡ some m
    → m.ip ≡ n.ip
    → release host id s ≡ some (true, s')
    → (get_interface id s' ≡ some n)
      × (get_interface other s' ≡ some m)
      × (held s'.network_set s'.bridge_network m.ip ≡ false)
unfolding release get_interface
release_stale host id other n m s s' i j same h =
    elim (Option-cases (unmap_all host 0 n.port_mappings s.mapper)) [
      | inl e ↦ absurd (ground (arith, i, e))
      | inr (k, e) ↦
          let left = record s {
            mapper = k;
            network_set = release_ip s.network_set s.bridge_network n.ip;
          } in
          let end_state : s' ≡ left = ground (arith, i, e) in
          rw end_state (
            i,
            j,
            rw same (
                held-release_ip s.network_set s.bridge_network s.bridge_network n.ip n.ip
                ∙ ground (arith, eq_refl s.bridge_network)),
          )
    ]
