-- ===== src/Network/IpAllocator.antt =====
-- daemon/networkdriver/ipallocator/allocator.go. Each entry point runs under one lock, so a call is
-- a function of the network set. `network.String()` is a key for the pair of address and mask; here
-- the pair itself is the key.
mod Tests
pub mod Next
pub mod Search
pub mod Requests
use docker_analysis.Base.{
  ℕ, zero, suc, ◌+◌, ◌-◌, ◌%◌, ◌≡◌, ◌↔◌, Bool, true, false, ◌&&◌, ◌||◌, List, [], ◌∷◌, Option, none,
  some, arith, ltb, leb, nat_beq, nat_beq_iff, if◌then◌else◌, Eq, ◌==◌, nat_eq,
}
use docker_analysis.Base.Dict.{lookup, insert}
use docker_analysis.Base.Keys.{contains, add, remove}
use docker_analysis.Network.Ip.{
  Ip, IpNet, two31, two32, add32, sub32, rem32, mask_ip, ip_to_int, int_to_ip, network_range,
  network_size, ip_beq,
}

pub record AllocatedMap : Type 0 where
  pub p : List ℕ
  pub last : ℕ

abbrev pub new_allocated_map : AllocatedMap
new_allocated_map = record { p = []; last = 0 }

unfoldable pub net_beq : IpNet → IpNet → Bool
unfolding ip_beq
net_beq x y = ip_beq x.ip y.ip && ip_beq x.mask y.mask

pub net_beq_iff : (x y : IpNet) → (net_beq x y ≡ true) ↔ (x ≡ y)
unfolding net_beq
net_beq_iff x y = ground arith

instance abbrev pub net_eq : Eq IpNet
net_eq = record { beq = net_beq; beq_iff = net_beq_iff }

abbrev pub NetworkSet : Type 0
NetworkSet = List (IpNet × AllocatedMap)

pub data IpOutcome : Type 0 where
  ok : Ip → IpOutcome
  no_available_ips ip_already_allocated : IpOutcome

unfoldable pub get_position : IpNet → Ip → ℕ
unfolding network_range
get_position network ip = sub32 (ip_to_int ip) (ip_to_int (network_range network).0)

unfoldable pub check_ip : AllocatedMap → IpNet → Ip → IpOutcome × AllocatedMap
check_ip allocated network ip =
    let pos = get_position network ip in
    if contains allocated.p pos
    then (ip_already_allocated, allocated)
    else (ok ip, record { p = add pos allocated.p; last = pos })

-- The numbers that `getNextIP` computes once: `ownIP`, `base`, `max` and `firstAsInt`.
pub record Range : Type 0 where
  pub own : ℕ
  pub base : ℕ
  pub max : ℕ
  pub first : ℕ

unfoldable pub range_of : IpNet → Range
unfolding network_range
range_of network = record {
  own = ip_to_int network.ip;
  base = ip_to_int (network_range network).0;
  max = sub32 (network_size network.mask) 2;
  first = add32 (ip_to_int (mask_ip network.ip network.mask)) 1;
}

-- The rounds of `for i := int32(0); i < max; i++`: none for a negative `max`.
abbrev pub rounds : ℕ → ℕ
rounds max = if ltb max two31 then max else 0

-- The loop of `getNextIP`: the position that it settles on.
unfoldable pub next_pos : Range → List ℕ → ℕ → ℕ → Option ℕ
next_pos r p zero pos = none
next_pos r p (suc n) pos =
    let pos' = add32 (rem32 pos r.max) 1 in
    let next = add32 r.base pos' in
    let rest = next_pos r p n pos' in
    if nat_beq next r.own || nat_beq next r.first
    then rest
    else if contains p pos'
    then rest
    else some pos'

abbrev pub settle : AllocatedMap → Range → Option ℕ → IpOutcome × AllocatedMap
settle allocated r none = (no_available_ips, allocated)
settle allocated r (some pos) =
    (ok (int_to_ip (add32 r.base pos)), record { p = add pos allocated.p; last = pos })

unfoldable pub get_next_ip : AllocatedMap → IpNet → IpOutcome × AllocatedMap
get_next_ip allocated network =
    let r = range_of network in
    settle allocated r (next_pos r allocated.p (rounds r.max) allocated.last)

abbrev pub allocated_at : IpNet → NetworkSet → AllocatedMap
allocated_at network s = elim (lookup network s) [ none ↦ new_allocated_map | some m ↦ m ]

abbrev put_map : IpNet → NetworkSet → IpOutcome × AllocatedMap → IpOutcome × NetworkSet
put_map network s (o, m) = (o, insert network m s)

unfoldable pub request_ip : NetworkSet → IpNet → Option Ip → IpOutcome × NetworkSet
request_ip s network none = put_map network s (get_next_ip (allocated_at network s) network)
request_ip s network (some ip) = put_map network s (check_ip (allocated_at network s) network ip)

unfoldable pub release_ip : NetworkSet → IpNet → Ip → NetworkSet
release_ip s network ip = elim (lookup network s) [
  | none ↦ s
  | some m ↦ insert network (record m { p = remove (get_position network ip) m.p }) s
]
