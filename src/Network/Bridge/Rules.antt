-- ===== src/Network/Bridge/Rules.antt =====
-- daemon/networkdriver/bridge/driver.go: the rules of the firewall.
pub mod InForce
use docker_analysis.Base.{
  ◌≡◌, ◌≢◌, Bool, true, false, ◌&&◌, List, [], ◌∷◌, Option, none, some, if◌then◌else◌, str_eq, Str,
  codes, not, is_empty, arith, refl, subst,
}
use docker_analysis.Base.Text.{split}
use docker_analysis.Network.Iptables.{Answer, Iptables, raw, rule_exists}

abbrev pub nat_args : Str → Str → List Str
nat_args addr bridge =
    codes "POSTROUTING"
    ∷ codes "-t"
    ∷ codes "nat"
    ∷ codes "-s"
    ∷ addr
    ∷ codes "!"
    ∷ codes "-o"
    ∷ bridge
    ∷ codes "-j"
    ∷ codes "MASQUERADE"
    ∷ []

abbrev pub between : Str → Str → List Str
between bridge target =
    codes "FORWARD" ∷ codes "-i" ∷ bridge ∷ codes "-o" ∷ bridge ∷ codes "-j" ∷ target ∷ []

abbrev pub accept_args : Str → List Str
accept_args bridge = between bridge (codes "ACCEPT")

abbrev pub drop_args : Str → List Str
drop_args bridge = between bridge (codes "DROP")

abbrev pub outgoing_args : Str → List Str
outgoing_args bridge =
    codes "FORWARD"
    ∷ codes "-i"
    ∷ bridge
    ∷ codes "!"
    ∷ codes "-o"
    ∷ bridge
    ∷ codes "-j"
    ∷ codes "ACCEPT"
    ∷ []

abbrev pub existing_args : Str → List Str
existing_args bridge =
    codes "FORWARD"
    ∷ codes "-o"
    ∷ bridge
    ∷ codes "-m"
    ∷ codes "conntrack"
    ∷ codes "--ctstate"
    ∷ codes "RELATED,ESTABLISHED"
    ∷ codes "-j"
    ∷ codes "ACCEPT"
    ∷ []

abbrev pub forward_args : Str → Str → Str → Str → Str → Str → Str → List Str
forward_args action bridge proto source side port target =
    action
    ∷ codes "FORWARD"
    ∷ codes "-i"
    ∷ bridge
    ∷ codes "-o"
    ∷ bridge
    ∷ codes "-p"
    ∷ proto
    ∷ codes "-s"
    ∷ source
    ∷ side
    ∷ port
    ∷ codes "-d"
    ∷ target
    ∷ codes "-j"
    ∷ codes "ACCEPT"
    ∷ []

pub record Link : Type 0 where
  pub action : Str
  pub child_ip : Str
  pub parent_ip : Str
  pub ignore_errors : Bool

-- `parts[0]` and `parts[1]`; `none` is the panic where there is no "/".
abbrev pub first_two : List Str → Option (Str × Str)
first_two [] = none
first_two (a ∷ []) = none
first_two (a ∷ b ∷ rest) = some (a, b)

module _ {W : Type 0} (ip : Iptables W) where
  -- A rule is inserted where it is not there yet: whether that goes well, and the state.
  unfoldable pub ensure : List Str → W → Bool × W
  ensure args w =
      let (there, w₁) = rule_exists ip args w in
      if there
      then (true, w₁)
      else let (answer, w') = raw ip (codes "-I" ∷ args) w₁ in
        (not answer.error && is_empty answer.output, w')

  -- The next rule, where all went well before.
  unfoldable pub and_then : (W → Bool × W) → Bool × W → Bool × W
  and_then f (true, w) = f w
  and_then f (false, w) = (false, w)

  -- The rule between containers: the contrary one is deleted first, whatever comes of it.
  unfoldable pub set_between : Str → Bool → W → Bool × W
  unfolding ensure
  set_between bridge true w =
      ensure (accept_args bridge) (raw ip (codes "-D" ∷ drop_args bridge) w).1
  set_between bridge false w =
      ensure (drop_args bridge) (raw ip (codes "-D" ∷ accept_args bridge) w).1

  -- `setupIPTables`: `false` is an error.
  unfoldable pub setup_iptables : Str → Str → Bool → W → Bool × W
  unfolding ensure and_then set_between
  setup_iptables addr bridge icc w = and_then (ensure (existing_args bridge)) (
      and_then (ensure (outgoing_args bridge))
        (and_then (set_between bridge icc) (ensure (nat_args addr bridge) w)))

  -- One call of `iptables.Raw`, and whether the job goes on.
  unfoldable pub link_rule : Bool → List Str → W → Bool × W
  link_rule ignore args w =
      let (answer, w') = raw ip args w in
      if not ignore && answer.error then (false, w') else (is_empty answer.output, w')

  -- The two rules of a port, in the two directions. `none` is the panic of `split`.
  unfoldable pub link_port : Str → Link → Str → W → Option (Bool × W)
  unfolding and_then link_rule
  link_port bridge l p w = elim (first_two (split b'/' p)) [
    | none ↦ none
    | some (port, proto) ↦ some (
        and_then
          (link_rule l.ignore_errors
            (forward_args l.action bridge proto l.child_ip (codes "--sport") port l.parent_ip))
          (link_rule l.ignore_errors
            (forward_args l.action bridge proto l.parent_ip (codes "--dport") port l.child_ip) w))
  ]

  -- `LinkContainers`: the inner `false` is the error of a rule, after which no rule follows.
  unfoldable pub link_containers : Str → Link → List Str → W → Option (Bool × W)
  unfolding link_port
  link_containers bridge l [] w = some (true, w)
  link_containers bridge l (p ∷ ps) w = elim (link_port bridge l p w) [
    | none ↦ none
    | some (true, w') ↦ link_containers bridge l ps w'
    | some (false, w') ↦ some (false, w')
  ]
