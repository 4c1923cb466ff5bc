-- ===== src/Network/Ip.antt =====
-- daemon/networkdriver/utils.go and the IPv4 values of Go's `net` that the allocator uses. An
-- address or a mask is four bytes; an `int32` is its bit pattern, a number below 2 ^ 32.
pub mod Laws
use Prim.Native.Nat.{bit_and, bit_or}
use docker_analysis.Base.{
  ℕ, ◌+◌, ◌-◌, ◌*◌, ◌/◌, ◌%◌, ◌<◌, ◌≡◌, Bool, true, false, ◌&&◌, ◌||◌, List, [], ◌∷◌, Option, none,
  some, arith, ltb, leb, nat_beq, if◌then◌else◌, Eq, ◌↔◌, Str,
}

pub record Ip : Type 0 where
  pub a : ℕ
  pub b : ℕ
  pub c : ℕ
  pub d : ℕ

-- Each part is a byte.
pub record IsIp (x : Ip) : Type 0 where
  pub a : x.a < 256
  pub b : x.b < 256
  pub c : x.c < 256
  pub d : x.d < 256

-- `net.IPNet`
pub record IpNet : Type 0 where
  pub ip : Ip
  pub mask : Ip

abbrev pub two32 : ℕ
two32 = 0x1_0000_0000

abbrev pub two31 : ℕ
two31 = 0x8000_0000

abbrev pub add32 : ℕ → ℕ → ℕ
add32 x y = (x + y) % two32

abbrev pub sub32 : ℕ → ℕ → ℕ
sub32 x y = (x + two32 - y) % two32

-- Go's `x % y` on `int32` for a positive `y`: the remainder has the sign of `x`.
abbrev pub rem32 : ℕ → ℕ → ℕ
rem32 x y = if ltb x two31 then x % y else (two32 - (two32 - x) % y) % two32

abbrev pub not_byte : ℕ → ℕ
not_byte x = 255 - x

-- `ip.Mask(mask)`
unfoldable pub mask_ip : Ip → Ip → Ip
mask_ip x m = record {
  a = bit_and x.a m.a;
  b = bit_and x.b m.b;
  c = bit_and x.c m.c;
  d = bit_and x.d m.d;
}

-- `binary.BigEndian.Uint32`
unfoldable pub big_endian : Ip → ℕ
big_endian x = x.a * 0x100_0000 + x.b * 0x1_0000 + x.c * 0x100 + x.d

unfoldable pub ip_to_int : Ip → ℕ
unfolding big_endian
ip_to_int x = big_endian x

-- `binary.BigEndian.PutUint32`
unfoldable pub int_to_ip : ℕ → Ip
int_to_ip n = record {
  a = n / 0x100_0000 % 256;
  b = n / 0x1_0000 % 256;
  c = n / 0x100 % 256;
  d = n % 256;
}

unfoldable pub network_range : IpNet → Ip × Ip
unfolding mask_ip
network_range n = (mask_ip n.ip n.mask, last)
  where
    last : Ip
    last = record {
      a = bit_or n.ip.a (not_byte n.mask.a);
      b = bit_or n.ip.b (not_byte n.mask.b);
      c = bit_or n.ip.c (not_byte n.mask.c);
      d = bit_or n.ip.d (not_byte n.mask.d);
    }

unfoldable pub network_size : Ip → ℕ
unfolding big_endian
network_size m = add32 (big_endian inverted) 1
  where
    inverted : Ip
    inverted = record { a = not_byte m.a; b = not_byte m.b; c = not_byte m.c; d = not_byte m.d }

unfoldable pub ip_beq : Ip → Ip → Bool
ip_beq x y = nat_beq x.a y.a && nat_beq x.b y.b && nat_beq x.c y.c && nat_beq x.d y.d

-- `n.Contains(ip)`: the masked addresses are equal.
unfoldable pub net_contains : IpNet → Ip → Bool
unfolding mask_ip ip_beq
net_contains n x = ip_beq (mask_ip n.ip n.mask) (mask_ip x n.mask)

unfoldable pub network_overlaps : IpNet → IpNet → Bool
unfolding net_contains network_range
network_overlaps x y =
    if net_contains y (network_range x).0
    then true
    else if net_contains x (network_range y).0
    then true
    else false

pub data OverlapError : Type 0 where
  overlaps_with_nameservers overlaps parse_error routes_error : OverlapError

-- The loop over the name servers; `parse` is `net.ParseCIDR` of a name server.
unfoldable pub check_nameserver_overlaps :
    (Str → Option IpNet) → List Str → IpNet → Option OverlapError
unfolding network_overlaps
check_nameserver_overlaps parse [] to_check = none
check_nameserver_overlaps parse (ns ∷ rest) to_check =
    let later = check_nameserver_overlaps parse rest to_check in
    elim (parse ns) [
      | none ↦ some parse_error
      | some net ↦ if network_overlaps to_check net then some overlaps_with_nameservers else later
    ]

-- A route's `IPNet` may be nil.
unfoldable pub any_route_overlaps : IpNet → List (Option IpNet) → Bool
unfolding network_overlaps
any_route_overlaps to_check [] = false
any_route_overlaps to_check (none ∷ rest) = any_route_overlaps to_check rest
any_route_overlaps to_check (some net ∷ rest) =
    network_overlaps to_check net || any_route_overlaps to_check rest

-- `routes` is what `netlink.NetworkGetRoutes` returned, `none` its error.
unfoldable pub check_route_overlaps : Option (List (Option IpNet)) → IpNet → Option OverlapError
unfolding any_route_overlaps
check_route_overlaps none to_check = some routes_error
check_route_overlaps (some routes) to_check =
    if any_route_overlaps to_check routes then some overlaps else none
