-- ===== src/Network/Ip/Laws.antt =====
-- Addresses as integers, and overlap.
use docker_analysis.Base.{ℕ, ◌<◌, ◌≡◌, arith}
use docker_analysis.Base.Bytes.{bit_and_byte}
use docker_analysis.Network.Ip.{
  Ip, IsIp, IpNet, two32, ip_to_int, int_to_ip, mask_ip, network_overlaps,
}

-- An address survives the trip through its 32-bit integer, and so does the integer.
pub int_to_ip-ip_to_int : (x : Ip) → IsIp x → int_to_ip (ip_to_int x) ≡ x
unfolding int_to_ip ip_to_int
int_to_ip-ip_to_int x v = ground arith

pub ip_to_int-int_to_ip : (n : ℕ) → n < two32 → ip_to_int (int_to_ip n) ≡ n
unfolding int_to_ip ip_to_int
ip_to_int-int_to_ip n h = omega arith

pub network_overlaps_comm : (x y : IpNet) → network_overlaps x y ≡ network_overlaps y x
unfolding network_overlaps
network_overlaps_comm x y = ground arith

pub mask_ip-IsIp : (x m : Ip) → IsIp x → IsIp m → IsIp (mask_ip x m)
unfolding mask_ip
mask_ip-IsIp x m v w = record {
  a = bit_and_byte x.a m.a v.a w.a;
  b = bit_and_byte x.b m.b v.b w.b;
  c = bit_and_byte x.c m.c v.c w.c;
  d = bit_and_byte x.d m.d v.d w.d;
}

pub ip_to_int-lt : (x : Ip) → IsIp x → ip_to_int x < two32
unfolding ip_to_int
ip_to_int-lt x v = omega arith
