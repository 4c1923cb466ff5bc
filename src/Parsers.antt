-- ===== src/Parsers.antt =====
-- pkg/parsers/parsers.go.
mod Tests
pub mod Names
use docker_analysis.Base.{
  ℕ, ◌≡◌, Bool, true, false, ◌&&◌, not, List, [], ◌∷◌, ◌++◌, Option, none, some, nat_beq,
  if◌then◌else◌, ◌==◌, str_eq, Str, codes, length,
}
use docker_analysis.Base.Int.{is_zero}
use docker_analysis.Base.Decimal.{atoi, print_int}
use docker_analysis.Base.Text.{contains_byte, split, cut, cut_last, after_prefix, has_prefix}

-- The repository and the tag, empty if there is none.
unfoldable pub parse_repository_tag : Str → Str × Str
parse_repository_tag repos = elim (cut_last b':' repos) [
  | none ↦ (repos, [])
  | some (name, tag) ↦ if contains_byte b'/' tag then (repos, []) else (name, tag)
]

-- `out[t] = parts[i]` for each part of the template, in order; the parts are as many.
abbrev pub fill_template : List Str → List Str → List (Str × Str)
fill_template [] ps = []
fill_template (t ∷ ts) [] = (t, []) ∷ fill_template ts []
fill_template (t ∷ ts) (p ∷ ps) = (t, p) ∷ fill_template ts ps

unfoldable pub part_parser : Str → Str → Option (List (Str × Str))
unfolding split
part_parser template text =
    let template_parts = split b':' template in
    let parts = split b':' text in
    if nat_beq (length parts) (length template_parts)
    then some (fill_template template_parts parts)
    else none

-- `strings.TrimSpace` is an argument: it is used as it is.
unfoldable pub parse_key_value_opt : (Str → Str) → Str → Option (Str × Str)
parse_key_value_opt trim opt = elim (cut b'=' opt) [
  | none ↦ none
  | some (key, value) ↦ some (trim key, trim value)
]

pub data HostError : Type 0 where
  invalid_format invalid_protocol : HostError

pub data Host : Type 0 where
  address : Str → Host
  invalid : HostError → Host

-- `strings.Contains(addr, "://")`
unfoldable pub contains_scheme : Str → Bool
contains_scheme [] = false
contains_scheme (x ∷ xs) =
    let rest = contains_scheme xs in if has_prefix (codes "://") (x ∷ xs) then true else rest

-- `host:port` of a tcp address; the port is not 0.
unfoldable pub tcp_address : Str → Str → Host
tcp_address default_host addr = elim (split b':' addr) [
  | host ∷ port ∷ [] ↦ elim (atoi port) [
    | none ↦ invalid invalid_format
    | some n ↦
        if is_zero n
        then invalid invalid_format
        else address
            (codes "tcp://" ++ ((if host == [] then default_host else host) ++ b':' ∷ print_int n))
  ]
  | _ ↦ invalid invalid_format
]

-- `ParseHost`, of an address that is trimmed.
unfoldable pub parse_host : Str → Str → Str → Host
unfolding tcp_address contains_scheme
parse_host default_host default_unix addr =
    if addr == codes "tcp://"
    then invalid invalid_format
    else elim (after_prefix (codes "unix://") addr) [
      | some path ↦ address (codes "unix://" ++ (if path == [] then default_unix else path))
      | none ↦ elim (after_prefix (codes "tcp://") addr) [
        | some rest ↦ tcp_address default_host rest
        | none ↦
            if has_prefix (codes "fd://") addr
            then address addr
            else if addr == []
            then address (codes "unix://" ++ default_unix)
            else if contains_scheme addr
            then invalid invalid_protocol
            else tcp_address default_host addr
      ]
    ]
