-- ===== src/Nat.antt =====
-- nat/nat.go: port specifications. A `Port` is the text of its number, a slash and its protocol.
use docker_analysis.Base.{
  ℕ, Bool, ◌&&◌, ◌||◌, not, List, [], ◌∷◌, ◌++◌, Option, none, some, nat_beq, is_empty,
  if◌then◌else◌, ◌==◌, str_eq, Str, codes, length,
}
use docker_analysis.Base.Decimal.{parse_uint}
use docker_analysis.Base.Dict.{lookup, insert}
use docker_analysis.Base.Keys.{add}
use docker_analysis.Base.Text.{contains_byte, split, cut_last}
use docker_analysis.Parsers.{part_parser}

abbrev pub Port : Type 0
Port = Str

pub record PortBinding : Type 0 where
  pub host_ip : Str
  pub host_port : Str

abbrev pub PortSet : Type 0
PortSet = List Port

abbrev pub PortMap : Type 0
PortMap = List (Port × List PortBinding)

abbrev pub port_spec_template : Str
port_spec_template = codes "ip:hostPort:containerPort"

unfoldable pub new_port : Str → Str → Port
new_port proto port = port ++ b'/' ∷ proto

-- `strconv.ParseUint(rawPort, 10, 16)`
unfoldable pub parse_port : Str → Option ℕ
parse_port raw = parse_uint 0x1_0000 raw

unfoldable pub proto_of : Port → Str
proto_of p = elim (split b'/' p) [
  | [] ↦ codes "tcp"
  | first ∷ [] ↦ codes "tcp"
  | first ∷ second ∷ rest ↦ second
]

unfoldable pub number_of : Port → Str
number_of p = elim (split b'/' p) [ [] ↦ [] | first ∷ rest ↦ first ]

-- `Int()`: `none` is its panic.
unfoldable pub int_of : Port → Option ℕ
unfolding number_of parse_port
int_of p = parse_port (number_of p)

unfoldable pub split_proto_port : Str → Str × Str
split_proto_port raw = elim (split b'/' raw) [
  | [] ↦ ([], [])
  | one ∷ [] ↦ if raw == [] then ([], []) else (codes "tcp", raw)
  | first ∷ second ∷ rest ↦ (second, first)
]

unfoldable pub validate_proto : Str → Bool
validate_proto proto = codes "tcp" == proto || codes "udp" == proto

pub data SpecError : Type 0 where
  invalid_format invalid_ip no_port invalid_container_port invalid_host_port invalid_proto :
      SpecError

pub data Parsed (A : Type 0) : Type 0 where
  ok : A → Parsed A
  err : SpecError → Parsed A

-- `proto` and `rawPort` after the cut at the last slash.
unfoldable pub split_proto : Str → Str × Str
split_proto raw = elim (cut_last b'/' raw) [
  | none ↦ (codes "tcp", raw)
  | some (port, proto) ↦ (proto, port)
]

-- Missing fields in front are made empty.
unfoldable pub pad : Str → Str
pad raw =
    if not (contains_byte b':' raw)
    then b':' ∷ b':' ∷ raw
    else if nat_beq (length (split b':' raw)) 2
    then b':' ∷ raw
    else raw

-- A missing key of the map gives the empty text.
abbrev pub field : Str → List (Str × Str) → Str
field name parts = elim (lookup name parts) [ none ↦ [] | some v ↦ v ]

-- A port with its binding: one round of the loop. `is_ip` is `net.ParseIP(s) != nil`.
unfoldable pub parse_port_spec : (Str → Bool) → Str → Parsed (Port × PortBinding)
unfolding split_proto pad new_port validate_proto
parse_port_spec is_ip raw =
    let proto = (split_proto raw).0 in
    elim (part_parser port_spec_template (pad (split_proto raw).1)) [
      | none ↦ err invalid_format
      | some parts ↦
          let container_port = field (codes "containerPort") parts in
          let raw_ip = field (codes "ip") parts in
          let host_port = field (codes "hostPort") parts in
          if not (is_empty raw_ip) && not (is_ip raw_ip)
          then err invalid_ip
          else if is_empty container_port
          then err no_port
          else elim (parse_uint 0x1_0000 container_port) [
            | none ↦ err invalid_container_port
            | some _ ↦ elim (parse_uint 0x1_0000 host_port) [
              | none ↦
                  if is_empty host_port
                  then (if validate_proto proto
                      then ok (
                        new_port proto container_port,
                        record { host_ip = raw_ip; host_port = host_port },
                      )
                      else err invalid_proto)
                  else err invalid_host_port
              | some _ ↦
                  if validate_proto proto
                  then ok (
                    new_port proto container_port,
                    record { host_ip = raw_ip; host_port = host_port },
                  )
                  else err invalid_proto
            ]
          ]
    ]

abbrev pub bindings_at : Port → PortMap → List PortBinding
bindings_at port m = elim (lookup port m) [ none ↦ [] | some bs ↦ bs ]

-- The loop over the specifications: the first error ends it.
unfoldable pub parse_specs_from :
    (Str → Bool) → List Str → PortSet → PortMap → Parsed (PortSet × PortMap)
unfolding parse_port_spec
parse_specs_from is_ip [] exposed bindings = ok (exposed, bindings)
parse_specs_from is_ip (raw ∷ rest) exposed bindings = elim (parse_port_spec is_ip raw) [
  | err e ↦ err e
  | ok (port, binding) ↦
      parse_specs_from is_ip rest (add port exposed)
        (insert port (bindings_at port bindings ++ binding ∷ []) bindings)
]

unfoldable pub parse_port_specs : (Str → Bool) → List Str → Parsed (PortSet × PortMap)
unfolding parse_specs_from
parse_port_specs is_ip ports = parse_specs_from is_ip ports [] []
