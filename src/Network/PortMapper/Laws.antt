-- ===== src/Network/PortMapper/Laws.antt =====
-- What the port mapper does with ports and mappings.
use docker_analysis.Base.{
  ℕ, ◌≡◌, Bool, true, false, ◌&&◌, Option, some, ◌==◌, str_eq, Str, arith, refl, inl, inr, nat_beq,
  Option-cases, Bool-cases, ap, ◌∙◌, sym, ◌||◌, not, str_beq_iff,
}
use docker_analysis.Base.Dict.{lookup}
use docker_analysis.Network.PortAllocator.{
  IpMapping, Error, Outcome, request_port, release_port, ip_text,
}
use docker_analysis.Network.PortAllocator as Ports
use docker_analysis.Network.PortAllocator.Requests.{taken, taken-request_port}
use docker_analysis.Network.PortAllocator.Releases.{taken-release_port}
use docker_analysis.Network.PortMapper.{
  Addr, Mapping, Action, Mapper, MapError, Host, Mapped, failed, get_key, host_addr, give_up,
  forward, start_proxy, map_allocated, add_rule, delete_rule, start_failed, port_mapped_for_ip,
  forward_failed, store_mapping, new_mapping, chain_forward,
}

pub forward-keeps :
    (h : Host) (a : Action) (m : Mapping) (s : Mapper)
    → ((forward h a m s).1.ports ≡ s.ports) × ((forward h a m s).1.mappings ≡ s.mappings)
unfolding forward chain_forward
forward-keeps h a m s = elim (Option-cases h.chain) [
  | inl e ↦ rw e (refl, refl)
  | inr (c, e) ↦ (ground (arith, e), ground (arith, e))
]

-- A failure gives up the port and nothing else of the allocator's.
pub taken-give_up :
    (ip : Option Str) (proto : Str) (port : ℕ) (e : MapError) (s s' : Mapper) (r : Mapped)
    → give_up ip proto port e s ≡ some (r, s')
    → (ip' proto' : Str) (q : ℕ)
    → taken s'.ports ip' proto' q ≡ (
        taken s.ports ip' proto' q
        && not ((ip_text ip == ip') && (proto == proto') && nat_beq port q))
unfolding give_up
taken-give_up ip proto port e s s' r h ip' proto' q =
    elim (Option-cases (release_port s.ports ip proto port)) [
      | inl f ↦ absurd (ground arith)
      | inr (p, f) ↦
          let after : s'.ports ≡ p = ground arith in
          ap (λ g. taken g ip' proto' q) after
          ∙ taken-release_port s.ports p ip proto port f ip' proto' q
    ]

-- A failure after the port was given comes from `give_up`, on a state with the same ports.
abbrev GaveUp : Option Str → Str → ℕ → Mapper → Mapper → Type 0
GaveUp ip proto port s s' =
    (e : MapError) × (s₁ : Mapper) × (s₁.ports ≡ s.ports)
    × (give_up ip proto port e s₁ ≡ some (failed e, s'))

give_up_error :
    (ip : Option Str) (proto : Str) (port : ℕ) (e e' : MapError) (s s' : Mapper)
    → give_up ip proto port e s ≡ some (failed e', s')
    → give_up ip proto port e s ≡ some (failed e, s')
unfolding give_up
give_up_error ip proto port e e' s s' h = elim (Option-cases (release_port s.ports ip proto port)) [
  | inl f ↦ absurd (ground arith)
  | inr (p, f) ↦ ground arith
]

start_proxy-GaveUp :
    (h : Host) (container : Addr) (ip : Option Str) (proto : Str) (port : ℕ) (e : MapError)
    (s s' : Mapper)
    → start_proxy h container ip proto port s ≡ some (failed e, s')
    → GaveUp ip proto port s s'
unfolding start_proxy
start_proxy-GaveUp h container ip proto port e s s' went = elim (Bool-cases h.start_fails) [
  | inr f ↦ absurd (ground arith)
  | inl f ↦
      let key = new_mapping container ip proto port in
      let stored = store_mapping container ip proto port s in
      let opened : start_proxy h container ip proto port s
          ≡ give_up ip proto port start_failed (forward h delete_rule key stored).1 =
        rw (start_proxy, f) refl in
      (
        start_failed,
        (forward h delete_rule key stored).1,
        (forward-keeps h delete_rule key stored).0,
        give_up_error ip proto port start_failed e (forward h delete_rule key stored).1 s'
            (sym opened ∙ went),
      )
]

map_allocated-GaveUp :
    (h : Host) (container : Addr) (ip : Option Str) (proto : Str) (port : ℕ) (e : MapError)
    (s s' : Mapper)
    → map_allocated h container ip proto port s ≡ some (failed e, s')
    → GaveUp ip proto port s s'
unfolding map_allocated
map_allocated-GaveUp h container ip proto port e s s' went =
    let key = get_key (host_addr container ip port) in
    let m = new_mapping container ip proto port in
    elim (Option-cases (lookup key s.mappings)) [
      | inr (_, f) ↦
          let opened : map_allocated h container ip proto port s
              ≡ give_up ip proto port port_mapped_for_ip s =
            rw (map_allocated, f) refl in
          (
            port_mapped_for_ip,
            s,
            refl,
            give_up_error ip proto port port_mapped_for_ip e s s' (sym opened ∙ went),
          )
      | inl f ↦ elim (Bool-cases (forward h add_rule m s).0) [
        | inl bad ↦
            let s₁ = (forward h add_rule m s).1 in
            let opened : map_allocated h container ip proto port s
                ≡ give_up ip proto port forward_failed s₁ =
              rw (map_allocated, f, bad) refl in
            (
              forward_failed,
              s₁,
              (forward-keeps h add_rule m s).0,
              give_up_error ip proto port forward_failed e s₁ s' (sym opened ∙ went),
            )
        | inr good ↦
            let s₁ = (forward h add_rule m s).1 in
            let opened : map_allocated h container ip proto port s
                ≡ start_proxy h container ip proto port s₁ =
              rw (map_allocated, f, good) refl in
            let (e', s₂, same, gave) =
              start_proxy-GaveUp h container ip proto port e s₁ s' (sym opened ∙ went) in
            (e', s₂, same ∙ (forward-keeps h add_rule m s).0, gave)
      ]
    ]

released_again : {u : Bool} (x t : Bool) → u ≡ ((x || t) && not x) → (x ≡ true → t ≡ false) → u ≡ t
released_again true t h fresh = h ∙ sym (fresh refl)
released_again false t h fresh = ground arith

same_place :
    (g : IpMapping) (ip proto ip' proto' : Str) (port q : ℕ)
    → taken g ip proto port ≡ false
    → ((ip == ip') && (proto == proto') && nat_beq port q) ≡ true
    → taken g ip' proto' q ≡ false
same_place g ip proto ip' proto' port q free same =
    let (i, j, k) : (ip ≡ ip') × (proto ≡ proto') × (port ≡ q) =
      ground (arith, str_beq_iff ip ip', str_beq_iff proto proto') in
    ap (λ a. taken g a proto' q) (sym i)
    ∙ ap (λ a. taken g ip a q) (sym j)
    ∙ ap (taken g ip proto) (sym k)
    ∙ free

-- `Map` that fails after the allocator gave it a port that was free leaves every port as it was before
-- the call, whether the mapping exists, one of the two rules is refused or the proxy does not start.
pub taken-map_allocated :
    (fuel : ℕ) (h : Host) (container : Addr) (ip : Option Str) (proto : Str) (host_port port : ℕ)
    (ports : IpMapping) (e : MapError) (s s' : Mapper)
    → request_port fuel s.ports ip proto host_port ≡ some (Ports.ok port, ports)
    → taken s.ports (ip_text ip) proto port ≡ false
    → map_allocated h container ip proto port (record s { ports = ports }) ≡ some (failed e, s')
    → (ip' proto' : Str) (q : ℕ) → taken s'.ports ip' proto' q ≡ taken s.ports ip' proto' q
taken-map_allocated fuel h container ip proto host_port port ports e s s' given free went ip' proto'
      q =
    let (e', s₁, same, gave) =
      map_allocated-GaveUp h container ip proto port e (record s { ports = ports }) s' went in
    let after = taken-give_up ip proto port e' s₁ s' (failed e') gave ip' proto' q in
    let before = ap (λ g. taken g ip' proto' q) same in
    let asked = taken-request_port fuel s.ports ports ip proto host_port port given ip' proto' q in
    released_again ((ip_text ip == ip') && (proto == proto') && nat_beq port q)
      (taken s.ports ip' proto' q)
      (after
        ∙ ap (λ b. b && not ((ip_text ip == ip') && (proto == proto') && nat_beq port q))
            (before ∙ asked))
      (same_place s.ports (ip_text ip) proto ip' proto' port q free)

pub given_up :
    (ip : Option Str) (proto : Str) (port : ℕ) (e : MapError) (s s' : Mapper) (r : Mapped)
    → give_up ip proto port e s ≡ some (r, s')
    → (r ≡ failed e) × (s'.mappings ≡ s.mappings)
unfolding give_up
given_up ip proto port e s s' r h = elim (Option-cases (release_port s.ports ip proto port)) [
  | inl f ↦ absurd (ground arith)
  | inr (p, f) ↦ (ground arith, ground arith)
]
