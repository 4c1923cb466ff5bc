-- ===== src/Network/Bridge/Setup.antt =====
-- daemon/networkdriver/bridge/driver.go: the choice of the bridge's address, its creation, and the
-- rules of the firewall. `net.ParseCIDR`, `netlink` and the `iptables` command are arguments.
use docker_analysis.Base.{
  ℕ, ◌≡◌, Bool, true, false, ◌&&◌, List, [], ◌∷◌, ◌++◌, Option, none, some, if◌then◌else◌, str_eq,
  Str, codes, leb, is_empty, arith, refl, inl, inr, Bool-cases, ap, ◌∙◌, sym,
}
use docker_analysis.Network.Ip.{IpNet, check_nameserver_overlaps, check_route_overlaps}

abbrev pub addrs : List Str
addrs =
    codes "172.17.42.1/16"
    ∷ codes "10.0.42.1/16"
    ∷ codes "10.1.42.1/16"
    ∷ codes "10.42.42.1/16"
    ∷ codes "172.16.42.1/24"
    ∷ codes "172.16.43.1/24"
    ∷ codes "172.16.44.1/24"
    ∷ codes "10.0.42.1/24"
    ∷ codes "10.0.43.1/24"
    ∷ codes "192.168.42.1/24"
    ∷ codes "192.168.43.1/24"
    ∷ codes "192.168.44.1/24"
    ∷ []

-- `mac` is the result of `kernel.GetKernelVersion`: the kernel and the major number.
pub record Machine : Type 0 where
  pub parse_cidr : Str → Option IpNet
  pub nameservers : List Str
  pub routes : Option (List (Option IpNet))
  pub kernel_version : Option (ℕ × ℕ)
  pub create_fails : Bool
  pub no_interface : Bool
  pub add_ip_fails : Bool
  pub link_up_fails : Bool

pub data BridgeError : Type 0 where
  bad_cidr no_free_range not_created not_found not_started : BridgeError

-- What the kernel was asked to do; `true` asks for a MAC address of the bridge's own.
pub data Deed : Type 0 where
  bridge_created : Bool → Deed
  address_added : Str → Deed
  link_started : Deed

unfoldable pub is_free : Machine → IpNet → Bool
is_free w net = elim (check_nameserver_overlaps w.parse_cidr w.nameservers net) [
  | some _ ↦ false
  | none ↦ elim (check_route_overlaps w.routes net) [ some _ ↦ false | none ↦ true ]
]

-- The loop over `addrs`: `none` is an address that cannot be parsed, the empty text that none is
-- free.
unfoldable pub choose_addr : Machine → List Str → Option Str
unfolding is_free
choose_addr w [] = some []
choose_addr w (addr ∷ rest) =
    let later = choose_addr w rest in
    elim (w.parse_cidr addr) [ none ↦ none | some net ↦ if is_free w net then some addr else later ]

-- `ifaceAddr`, or `none` for an error of `net.ParseCIDR`.
unfoldable pub iface_addr : Machine → Str → Option Str
unfolding choose_addr
iface_addr w bridge_ip =
    if is_empty bridge_ip
    then choose_addr w addrs
    else elim (w.parse_cidr bridge_ip) [ none ↦ none | some _ ↦ some bridge_ip ]

unfoldable pub sets_mac : Machine → Bool
sets_mac w = elim w.kernel_version [
  | none ↦ false
  | some (kernel, major) ↦ leb 3 kernel && leb 3 major
]

-- The part of `createBridge` on the network devices. The test after `NetworkLinkAddIp` looks at the
-- error of `net.ParseCIDR`, which is nil there.
unfoldable pub make_bridge : Machine → Str → Option BridgeError × List Deed
unfolding sets_mac
make_bridge w addr =
    if w.create_fails
    then (some not_created, [])
    else let made = bridge_created (sets_mac w) ∷ [] in
      if w.no_interface then (some not_found, made) else elim (w.parse_cidr addr) [
        | none ↦ (some bad_cidr, made)
        | some _ ↦
            let set = if w.add_ip_fails then made else made ++ address_added addr ∷ [] in
            if w.link_up_fails then (some not_started, set) else (none, set ++ link_started ∷ [])
      ]

unfoldable pub bridge_at : Machine → Option Str → Option BridgeError × List Deed
unfolding make_bridge
bridge_at w none = (some bad_cidr, [])
bridge_at w (some addr) = if is_empty addr then (some no_free_range, []) else make_bridge w addr

unfoldable pub create_bridge : Machine → Str → Option BridgeError × List Deed
unfolding iface_addr bridge_at
create_bridge w bridge_ip = bridge_at w (iface_addr w bridge_ip)

-- The address overlaps no name server's network and no route.
abbrev pub Free : Machine → Str → Type 0
Free w addr = (net : IpNet) × (w.parse_cidr addr ≡ some net) × (is_free w net ≡ true)

abbrev pub Busy : Machine → Str → Type 0
Busy w addr = (net : IpNet) × (w.parse_cidr addr ≡ some net) × (is_free w net ≡ false)

abbrev pub AllBusy : Machine → List Str → Type 0
AllBusy w [] = Unit
AllBusy w (a ∷ rest) = Busy w a × AllBusy w rest

abbrev with_add_ip : Bool → Machine → Machine
with_add_ip fails w = record w { add_ip_fails = fails }

choose_addr-with_add_ip :
    (fails : Bool) (w : Machine) (list : List Str)
    → choose_addr (with_add_ip fails w) list ≡ choose_addr w list
unfolding choose_addr is_free
choose_addr-with_add_ip fails w [] = refl
choose_addr-with_add_ip fails w (a ∷ rest) = ground (arith, choose_addr-with_add_ip fails w rest)

make_bridge_unset :
    (w : Machine) (addr : Str)
    → (make_bridge (with_add_ip true w) addr).0 ≡ (make_bridge (with_add_ip false w) addr).0
unfolding make_bridge
make_bridge_unset w addr = ground arith

iface_addr_unset :
    (w : Machine) (bridge_ip : Str)
    → iface_addr (with_add_ip true w) bridge_ip ≡ iface_addr (with_add_ip false w) bridge_ip
unfolding iface_addr
iface_addr_unset w bridge_ip =
    let same = choose_addr-with_add_ip true w addrs ∙ sym (choose_addr-with_add_ip false w addrs) in
    elim (Bool-cases (is_empty bridge_ip)) [
      | inl e ↦ rw (iface_addr, e) same
      | inr e ↦ rw (iface_addr, e) refl
    ]

bridge_at_unset :
    (w : Machine) (o : Option Str)
    → (bridge_at (with_add_ip true w) o).0 ≡ (bridge_at (with_add_ip false w) o).0
unfolding bridge_at
bridge_at_unset w none = refl
bridge_at_unset w (some addr) = ground (arith, make_bridge_unset w addr)

-- Whether the address could be put on the bridge makes no difference to what is reported.
pub create_bridge_unset :
    (w : Machine) (bridge_ip : Str)
    → (create_bridge (record w { add_ip_fails = true }) bridge_ip).0
      ≡ (create_bridge (record w { add_ip_fails = false }) bridge_ip).0
unfolding create_bridge
create_bridge_unset w bridge_ip =
    ap (λ o. (bridge_at (with_add_ip true w) o).0) (iface_addr_unset w bridge_ip)
    ∙ bridge_at_unset w (iface_addr (with_add_ip false w) bridge_ip)
