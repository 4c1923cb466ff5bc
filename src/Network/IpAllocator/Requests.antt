-- ===== src/Network/IpAllocator/Requests.antt =====
-- `RequestIP` and `ReleaseIP` against the set of held addresses of each network.
use docker_analysis.Base.{
  ℕ, ◌<◌, ◌≡◌, Bool, false, not, ◌||◌, ◌&&◌, Option, none, some, arith, if◌then◌else◌, nat_eq,
  Bool-cases, inl, inr, ap, subst, ◌∙◌, ◌==◌, eq_refl,
}
use docker_analysis.Base.Dict.{insert, lookup-insert}
use docker_analysis.Base.Keys.{contains, add, remove, contains-add, contains-remove}
use docker_analysis.Network.Ip.{Ip, IsIp, IpNet, two32, add32, sub32, mask_ip, ip_to_int, int_to_ip}
use docker_analysis.Network.Ip.Laws.{
  mask_ip-IsIp, ip_to_int-lt, ip_to_int-int_to_ip, int_to_ip-ip_to_int,
}
use docker_analysis.Network.IpAllocator.{
  AllocatedMap, NetworkSet, IpOutcome, ok, get_position, check_ip, range_of, get_next_ip,
  allocated_at, put_map, request_ip, release_ip, net_eq, net_beq_iff,
}
use docker_analysis.Network.IpAllocator.Next.{usable}
use docker_analysis.Network.IpAllocator.Search.{HasRoom, get_next_ip-usable}

-- The address is held: its position is in the allocated map of the network.
unfoldable pub held : NetworkSet → IpNet → Ip → Bool
held s network x = contains (allocated_at network s).p (get_position network x)

pub record IsNet (n : IpNet) : Type 0 where
  pub ip : IsIp n.ip
  pub mask : IsIp n.mask

base-lt : (n : IpNet) → IsNet n → (range_of n).base < two32
unfolding range_of
base-lt n v = ip_to_int-lt (mask_ip n.ip n.mask) (mask_ip-IsIp n.ip n.mask v.ip v.mask)

sub32-add32 : (b p : ℕ) → b < two32 → p < two32 → sub32 (add32 b p) b ≡ p
sub32-add32 b p h k = omega arith

add32-sub32 : (b x : ℕ) → b < two32 → x < two32 → add32 b (sub32 x b) ≡ x
add32-sub32 b x h k = omega arith

-- In a network of proper bytes, the address at a position below 2 ^ 32 has that position.
pub get_position-int_to_ip :
    (n : IpNet) (pos : ℕ)
    → IsNet n
    → pos < two32
    → get_position n (int_to_ip (add32 (range_of n).base pos)) ≡ pos
unfolding get_position range_of
get_position-int_to_ip n pos v h =
    let base : ℕ = (range_of n).base in
    rw (ip_to_int-int_to_ip (add32 base pos) (omega arith)) (sub32-add32 base pos (base-lt n v) h)

-- In a network of proper bytes, an address of proper bytes is the one at its position.
pub int_to_ip-get_position :
    (n : IpNet) (x : Ip)
    → IsNet n
    → IsIp x
    → int_to_ip (add32 (range_of n).base (get_position n x)) ≡ x
unfolding get_position range_of
int_to_ip-get_position n x v h =
    rw (add32-sub32 (range_of n).base (ip_to_int x) (base-lt n v) (ip_to_int-lt x h))
      (int_to_ip-ip_to_int x h)

abbrev Grants : AllocatedMap → IpNet → Ip → AllocatedMap → Type 0
Grants m n x m' = (contains m.p (get_position n x) ≡ false) × (m'.p ≡ add (get_position n x) m.p)

check_ip-Grants :
    (m m' : AllocatedMap) (n : IpNet) (x y : Ip)
    → check_ip m n x ≡ (ok y, m')
    → (y ≡ x) × Grants m n y m'
unfolding check_ip
check_ip-Grants m m' n x y h = ground arith

get_next_ip-Grants :
    (m m' : AllocatedMap) (n : IpNet) (y : Ip)
    → IsNet n
    → HasRoom m (range_of n)
    → get_next_ip m n ≡ (ok y, m')
    → Grants m n y m'
unfolding usable
get_next_ip-Grants m m' n y v room h =
    let (q, low, high, free, here, after) = get_next_ip-usable m n room y m' h in
    let same : get_position n y ≡ q =
      ap (get_position n) here ∙ get_position-int_to_ip n q v (omega arith) in
    ground arith

held-insert :
    (s : NetworkSet) (n n' : IpNet) (m : AllocatedMap) (y : Ip)
    → held (insert n m s) n' y ≡ (if n == n' then contains m.p (get_position n' y) else held s n' y)
unfolding held
held-insert s n n' m y = ground (arith, lookup-insert n n' m s, net_beq_iff n n')

granted :
    (s : NetworkSet) (n : IpNet) (x : Ip) (m' : AllocatedMap)
    → Grants (allocated_at n s) n x m'
    → (n' : IpNet) (y : Ip)
    → held (insert n m' s) n' y
      ≡ (((n == n') && (get_position n x == get_position n y)) || held s n' y)
unfolding held
granted s n x m' g n' y = elim (Bool-cases (n == n')) [
  | inl same ↦
      let here : contains m'.p (get_position n y) ≡ (
          (get_position n x == get_position n y)
          || contains (allocated_at n s).p (get_position n y)) =
        ap (λ p. contains p (get_position n y)) g.1
        ∙ contains-add (get_position n x) (get_position n y) (allocated_at n s).p in
      let at : held (insert n m' s) n' y ≡ contains m'.p (get_position n' y) =
        rw held-insert (rw same) in
      let e : n ≡ n' = (net_beq_iff n n').0 same in
      rw same (
        at
        ∙ subst
            (λ k. contains m'.p (get_position k y) ≡ (
              (get_position n x == get_position n y)
              || contains (allocated_at k s).p (get_position k y)))
            e here)
  | inr other ↦ rw other (held-insert s n n' m' y ∙ rw other)
]

put_map-eq_ok :
    (s s' : NetworkSet) (n : IpNet) (x : Ip) (r : IpOutcome × AllocatedMap)
    → put_map n s r ≡ (ok x, s')
    → (m : AllocatedMap) × (r ≡ (ok x, m)) × (s' ≡ insert n m s)
put_map-eq_ok s s' n x (o, m) h = (m, ground arith, ground arith)

-- No address is handed out twice: an address that a request on a proper network with room returns
-- was not held, it is held now, and nothing else changes.
pub request_ip-held :
    (s s' : NetworkSet) (n : IpNet) (wanted : Option Ip) (x : Ip)
    → IsNet n
    → HasRoom (allocated_at n s) (range_of n)
    → request_ip s n wanted ≡ (ok x, s')
    → (held s n x ≡ false)
      × ((n' : IpNet) (y : Ip)
          → held s' n' y ≡ (((n == n') && (get_position n x == get_position n y)) || held s n' y))
unfolding request_ip held
request_ip-held s s' n none x v room h =
    let m = allocated_at n s in
    let (m', r, e) = put_map-eq_ok s s' n x (get_next_ip m n) h in
    let g = get_next_ip-Grants m m' n x v room r in (g.0, λ n' y. rw e (granted s n x m' g n' y))
request_ip-held s s' n (some w) x v room h =
    let m = allocated_at n s in
    let (m', r, e) = put_map-eq_ok s s' n x (check_ip m n w) h in
    let g = (check_ip-Grants m m' n w x r).1 in (g.0, λ n' y. rw e (granted s n x m' g n' y))

released_self :
    (s : NetworkSet) (n : IpNet) (x y : Ip)
    → held (release_ip s n x) n y ≡ (
        contains (allocated_at n s).p (get_position n y)
        && not (get_position n x == get_position n y))
unfolding held release_ip contains
released_self s n x y = ground (
  arith,
  contains-remove (get_position n x) (get_position n y) (allocated_at n s).p,
  lookup-insert n n (after_release (allocated_at n s)) s,
  eq_refl n,
)
  where
    after_release : AllocatedMap → AllocatedMap
    after_release m = record m { p = remove (get_position n x) m.p }

released_other :
    (s : NetworkSet) (n n' : IpNet) (x y : Ip)
    → (n == n') ≡ false
    → held (release_ip s n x) n' y ≡ held s n' y
unfolding held release_ip
released_other s n n' x y other =
    ground (arith, lookup-insert n n' (after_release (allocated_at n s)) s)
  where
    after_release : AllocatedMap → AllocatedMap
    after_release m = record m { p = remove (get_position n x) m.p }

-- A released address is not held any more, and nothing else changes.
pub held-release_ip :
    (s : NetworkSet) (n n' : IpNet) (x y : Ip)
    → held (release_ip s n x) n' y
      ≡ (held s n' y && not ((n == n') && (get_position n x == get_position n' y)))
unfolding held
held-release_ip s n n' x y = elim (Bool-cases (n == n')) [
  | inl same ↦
      let e : n ≡ n' = (net_beq_iff n n').0 same in
      rw same (
        subst
          (λ k. held (release_ip s n x) k y ≡ (
            contains (allocated_at k s).p (get_position k y)
            && not (get_position n x == get_position k y)))
          e (released_self s n x y))
  | inr other ↦ rw other (released_other s n n' x y other ∙ ground arith)
]
