-- ===== src/Links.antt =====
-- links/links.go: the environment that a link gives to a container, and the job that opens its ports.
-- The sort of `nat.Sort` is insertion, by the order of `getDefaultPort`.
mod Tests
pub mod Names
use docker_analysis.Base.{
  ℕ, ◌≡◌, Bool, true, false, ◌&&◌, ◌||◌, List, [], ◌∷◌, ◌++◌, Option, none, some, if◌then◌else◌,
  ◌==◌, str_eq, Str, codes, nat_beq, leb, ltb, length, map,
}
use docker_analysis.Base.Text.{split, cut_last}
use docker_analysis.Base.Trim.{to_lower}
use docker_analysis.Engine.Env.{Env, set, set_bool}
use docker_analysis.Nat.{Port, proto_of, number_of, int_of}
use Prim.Native.Nat.{◌-◌}

pub record Link : Type 0 where
  pub parent_ip : Str
  pub child_ip : Str
  pub name : Str
  pub child_environment : List Str
  pub ports : List Port
  pub is_enabled : Bool

-- `NewLink`, with the ports in the order in which the map gives them.
abbrev pub new_link : Str → Str → Str → List Str → List Port → Link
new_link parent_ip child_ip name env ports = record {
  parent_ip = parent_ip;
  child_ip = child_ip;
  name = name;
  child_environment = env;
  ports = ports;
  is_enabled = false;
}

abbrev pub upper : ℕ → ℕ
upper c = if leb b'a' c && leb c b'z' then c - 32 else c

-- `strings.ToUpper` on the letters of ASCII.
unfoldable pub to_upper : Str → Str
to_upper [] = []
to_upper (c ∷ cs) = upper c ∷ to_upper cs

-- `strings.Replace(s, "-", "_", -1)`
unfoldable pub underscored : Str → Str
underscored [] = []
underscored (c ∷ cs) = (if nat_beq c b'-' then b'_' else c) ∷ underscored cs

-- `Alias`: what follows the last slash.
unfoldable pub alias_of : Link → Str
alias_of l = elim (cut_last b'/' l.name) [ none ↦ l.name | some (dir, file) ↦ file ]

abbrev pub comes_before : ℕ → Str → ℕ → Bool
comes_before i proto j = ltb i j || (nat_beq i j && to_lower proto == codes "tcp")

unfoldable pub place_port : ℕ → Port → List (ℕ × Port) → List (ℕ × Port)
unfolding to_lower proto_of
place_port i p [] = (i, p) ∷ []
place_port i p ((j, q) ∷ rest) =
    let later = place_port i p rest in
    if comes_before i (proto_of p) j then (i, p) ∷ (j, q) ∷ rest else (j, q) ∷ later

-- The sorted ports with their numbers; `none` is the panic at a port without a number, which two
-- ports at least make the sort look at.
unfoldable pub sort_ports : List Port → Option (List (ℕ × Port))
unfolding place_port
sort_ports [] = some []
sort_ports (p ∷ ps) = elim (int_of p) [
  | none ↦ none
  | some i ↦ elim (sort_ports ps) [ none ↦ none | some qs ↦ some (place_port i p qs) ]
]

unfoldable pub ports_of : List (ℕ × Port) → List Port
ports_of [] = []
ports_of ((i, p) ∷ rest) = p ∷ ports_of rest

-- The ports in the order that `getDefaultPort` leaves them in, the default one first.
unfoldable pub ordered_ports : List Port → Option (List Port)
unfolding sort_ports ports_of
ordered_ports [] = some []
ordered_ports (p ∷ []) = some (p ∷ [])
ordered_ports (p ∷ q ∷ ps) = elim (sort_ports (p ∷ q ∷ ps)) [
  | none ↦ none
  | some qs ↦ some (ports_of qs)
]

-- "proto://ip:port"
abbrev pub address : Link → Port → Str
address l p = proto_of p ++ (codes "://" ++ (l.child_ip ++ b':' ∷ number_of p))

-- "_PORT_port_PROTO"
abbrev pub port_name : Port → Str
port_name p = codes "_PORT_" ++ (number_of p ++ b'_' ∷ to_upper (proto_of p))

abbrev pub port_variables : Str → Link → Port → List Str
port_variables alias l p =
    (alias ++ (port_name p ++ b'=' ∷ address l p))
    ∷ (alias ++ (port_name p ++ (codes "_ADDR=" ++ l.child_ip)))
    ∷ (alias ++ (port_name p ++ (codes "_PORT=" ++ number_of p)))
    ∷ (alias ++ (port_name p ++ (codes "_PROTO=" ++ proto_of p)))
    ∷ []

unfoldable pub all_port_variables : Str → Link → List Port → List Str
unfolding to_upper proto_of number_of
all_port_variables alias l [] = []
all_port_variables alias l (p ∷ ps) = port_variables alias l p ++ all_port_variables alias l ps

abbrev pub default_variable : Str → Link → List Port → List Str
default_variable alias l [] = []
default_variable alias l (p ∷ ps) = (alias ++ (codes "_PORT=" ++ address l p)) ∷ []

-- What a variable of the child becomes: one with two parts at "=" and another name than HOME and
-- PATH is passed on.
abbrev pub passed_on : Str → List Str → List Str
passed_on alias [] = []
passed_on alias (key ∷ []) = []
passed_on alias (key ∷ value ∷ []) =
    if key == codes "HOME" || key == codes "PATH"
    then []
    else (alias ++ (codes "_ENV_" ++ (key ++ b'=' ∷ value))) ∷ []
passed_on alias (key ∷ value ∷ other ∷ rest) = []

unfoldable pub child_variables : Str → List Str → List Str
child_variables alias [] = []
child_variables alias (v ∷ vs) = passed_on alias (split b'=' v) ++ child_variables alias vs

-- The alias as the variables have it.
unfoldable pub prefix_of : Link → Str
unfolding alias_of to_upper underscored
prefix_of l = underscored (to_upper (alias_of l))

-- `ToEnv`; `none` is the panic of the sort.
unfoldable pub to_env : Link → Option (List Str)
unfolding ordered_ports all_port_variables child_variables prefix_of proto_of number_of
to_env l = elim (ordered_ports l.ports) [
  | none ↦ none
  | some ports ↦
      let alias = prefix_of l in
      some (
        default_variable alias l ports
        ++ (all_port_variables alias l ports
            ++ ((alias ++ (codes "_NAME=" ++ l.name)) ∷ child_variables alias l.child_environment)))
]

-- The environment of the job that `toggle` runs, without the list of ports, which goes through JSON.
unfoldable pub toggle_env : Bool → Link → Env
unfolding set set_bool
toggle_env ignore_errors l =
    set_bool (codes "IgnoreErrors") ignore_errors
      (set (codes "ChildIP") l.child_ip (set (codes "ParentIP") l.parent_ip []))

-- `Enable`, for what the job returns: whether it fails, and the link.
unfoldable pub enable : Bool → Link → Bool × Link
enable job_fails l = if job_fails then (true, l) else (false, record l { is_enabled = true })

unfoldable pub disable : Link → Link
disable l = record l { is_enabled = false }
