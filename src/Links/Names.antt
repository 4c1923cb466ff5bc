-- ===== src/Links/Names.antt =====
-- The names of the variables that a link gives.
use docker_analysis.Base.{
  ◌≡◌, Bool, true, List, [], ◌∷◌, ◌++◌, some, str_eq, Str, codes, arith, refl, ap, sym, ◌∙◌,
  Option-cases, inl, inr, all,
}
use docker_analysis.Base.Text.{split, has_prefix, after_prefix}
use docker_analysis.Nat.{Port, proto_of, number_of}
use docker_analysis.Links.{
  Link, port_name, address, all_port_variables, port_variables, default_variable, passed_on,
  child_variables, prefix_of, ordered_ports, to_env,
}

has_prefix-append : (p s : Str) → has_prefix p (p ++ s) ≡ true
unfolding after_prefix
has_prefix-append [] s = refl
has_prefix-append (x ∷ p) s = ground (arith, has_prefix-append p s)

abbrev pub all_named : Str → List Str → Bool
all_named alias vs = all (has_prefix alias) vs

all_named-append :
    (alias : Str) (xs ys : List Str)
    → all_named alias xs ≡ true
    → all_named alias ys ≡ true
    → all_named alias (xs ++ ys) ≡ true
all_named-append alias [] ys h k = k
all_named-append alias (x ∷ xs) ys h k =
    ground (arith, h, all_named-append alias xs ys (ground (arith, h)) k)

named-default_variable :
    (alias : Str) (l : Link) (ps : List Port) → all_named alias (default_variable alias l ps) ≡ true
named-default_variable alias l [] = refl
named-default_variable alias l (p ∷ ps) = rw (has_prefix-append alias _) refl

named-port_variables :
    (alias : Str) (l : Link) (p : Port) → all_named alias (port_variables alias l p) ≡ true
named-port_variables alias l p = ground (
  arith,
  has_prefix-append alias (port_name p ++ b'=' ∷ address l p),
  has_prefix-append alias (port_name p ++ (codes "_ADDR=" ++ l.child_ip)),
  has_prefix-append alias (port_name p ++ (codes "_PORT=" ++ number_of p)),
  has_prefix-append alias (port_name p ++ (codes "_PROTO=" ++ proto_of p)),
)

named-all_port_variables :
    (alias : Str) (l : Link) (ps : List Port)
    → all_named alias (all_port_variables alias l ps) ≡ true
unfolding all_port_variables
named-all_port_variables alias l [] = refl
named-all_port_variables alias l (p ∷ ps) =
    all_named-append alias (port_variables alias l p) (all_port_variables alias l ps)
      (named-port_variables alias l p) (named-all_port_variables alias l ps)

named-passed_on : (alias : Str) (parts : List Str) → all_named alias (passed_on alias parts) ≡ true
named-passed_on alias [] = refl
named-passed_on alias (key ∷ []) = refl
named-passed_on alias (key ∷ value ∷ []) =
    ground (arith, has_prefix-append alias (codes "_ENV_" ++ (key ++ b'=' ∷ value)))
named-passed_on alias (key ∷ value ∷ other ∷ rest) = refl

named-child_variables :
    (alias : Str) (vs : List Str) → all_named alias (child_variables alias vs) ≡ true
unfolding child_variables
named-child_variables alias [] = refl
named-child_variables alias (v ∷ vs) =
    all_named-append alias (passed_on alias (split b'=' v)) (child_variables alias vs)
      (named-passed_on alias (split b'=' v)) (named-child_variables alias vs)

-- Every variable that a link gives begins with the link's alias, in upper case and with underscores.
pub named-to_env :
    (l : Link) (env : List Str) → to_env l ≡ some env → all_named (prefix_of l) env ≡ true
unfolding to_env
named-to_env l env h = elim (Option-cases (ordered_ports l.ports)) [
  | inl e ↦ absurd (ground (arith, e))
  | inr (ps, e) ↦
      let alias = prefix_of l in
      let tail =
        (alias ++ (codes "_NAME=" ++ l.name)) ∷ child_variables alias l.child_environment in
      let whole : default_variable alias l ps ++ (all_port_variables alias l ps ++ tail) ≡ env =
        ground (arith, e) in
      let ends : all_named alias tail ≡ true = ground (
        arith,
        has_prefix-append alias (codes "_NAME=" ++ l.name),
        named-child_variables alias l.child_environment,
      ) in
      ap (all_named alias) (sym whole)
      ∙ all_named-append alias (default_variable alias l ps) _ (named-default_variable alias l ps) (
          all_named-append alias (all_port_variables alias l ps) tail
            (named-all_port_variables alias l ps) ends)
]
