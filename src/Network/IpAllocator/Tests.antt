-- ===== src/Network/IpAllocator/Tests.antt =====
-- The IP allocator's theorems on a network of eight addresses, 10.0.0.0/29, with the bridge on
-- 10.0.0.1.
use docker_analysis.Base.{ℕ, ◌≡◌, false, ◌&&◌, ◌||◌, [], ◌∷◌, none, arith, refl, ◌==◌, nat_eq}
use docker_analysis.Base.Dict.{lookup, insert}
use docker_analysis.Base.Keys.{contains, add}
use docker_analysis.Network.Ip.{Ip, IsIp, IpNet, add32, int_to_ip, ip_to_int, network_size}
use docker_analysis.Network.IpAllocator.{
  AllocatedMap, new_allocated_map, NetworkSet, net_eq, ok, no_available_ips, get_position, range_of,
  get_next_ip, allocated_at, request_ip, release_ip,
}
use docker_analysis.Network.IpAllocator.Next.{usable}
use docker_analysis.Network.IpAllocator.Search.{HasRoom, Nearest, get_next_ip-Nearest}
use docker_analysis.Network.IpAllocator.Requests.{held, IsNet, request_ip-held}

abbrev bridge : Ip
bridge = record { a = 10; b = 0; c = 0; d = 1 }

abbrev guest : Ip
guest = record { a = 10; b = 0; c = 0; d = 3 }

abbrev small_net : IpNet
small_net = record { ip = bridge; mask = record { a = 255; b = 255; c = 255; d = 248 } }

small_net-IsNet : IsNet small_net
small_net-IsNet = record {
  ip = record { a = omega arith; b = omega arith; c = omega arith; d = omega arith };
  mask = record { a = omega arith; b = omega arith; c = omega arith; d = omega arith };
}

guest-IsIp : IsIp guest
guest-IsIp = record { a = omega arith; b = omega arith; c = omega arith; d = omega arith }

room : HasRoom new_allocated_map (range_of small_net)
unfolding range_of network_size
room = (omega arith, omega arith, omega arith)

get_next_ip-Nearest_example :
    (q : ℕ) × (get_next_ip new_allocated_map small_net
      ≡ (ok (int_to_ip (add32 (range_of small_net).base q)), record { p = add q []; last = q }))
    × Nearest new_allocated_map (range_of small_net) room q
unfolding usable range_of contains network_size ip_to_int
get_next_ip-Nearest_example =
    get_next_ip-Nearest new_allocated_map small_net room 5 (omega arith) (omega arith) refl

abbrev one_guest : NetworkSet
one_guest = (small_net, record { p = 2 ∷ []; last = 2 }) ∷ []

abbrev second : Ip
second = record { a = 10; b = 0; c = 0; d = 2 }

request_ip-held_example :
    (held [] small_net second ≡ false)
    × ((n' : IpNet) (y : Ip)
        → held one_guest n' y ≡ (
            ((small_net == n') && (get_position small_net second == get_position small_net y))
            || held [] n' y))
unfolding request_ip range_of contains add lookup insert get_next_ip
    docker_analysis.Network.IpAllocator.next_pos network_size ip_to_int int_to_ip
request_ip-held_example =
    request_ip-held [] one_guest small_net none second small_net-IsNet room refl
