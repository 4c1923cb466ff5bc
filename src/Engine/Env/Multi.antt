-- ===== src/Engine/Env/Multi.antt =====
-- engine/env.go: an environment as a map whose keys have many values, as HTTP headers have. A map
-- that is read comes in the order in which Go's iteration gives it.
use docker_analysis.Base.{
  ◌≡◌, List, [], ◌∷◌, ◌++◌, Option, none, some, if◌then◌else◌, ◌==◌, str_eq, Str, arith, refl, inl,
  inr, ap, ◌∙◌, subst, Option-cases, Bool-cases,
}
use docker_analysis.Base.Dict.{lookup, insert, lookup-insert}
use docker_analysis.Base.Text.{cut, NoByte, cut-append}
use docker_analysis.Engine.Env.{Env, set}
use mathlib.Core.List.{append_assoc, append-nil}

abbrev pub MultiMap : Type 0
MultiMap = List (Str × List Str)

-- `m[k]`, nil where the key is not there.
unfoldable pub values_of : Str → MultiMap → List Str
values_of key m = elim (lookup key m) [ none ↦ [] | some vs ↦ vs ]

-- The loop of `MultiMap`. `none` is the panic at an entry without "=".
unfoldable pub multi_map_from : Env → MultiMap → Option MultiMap
multi_map_from [] m = some m
multi_map_from (kv ∷ rest) m = elim (cut b'=' kv) [
  | none ↦ none
  | some (k, v) ↦ multi_map_from rest (insert k (values_of k m ++ v ∷ []) m)
]

unfoldable pub multi_map : Env → Option MultiMap
unfolding multi_map_from
multi_map env = multi_map_from env []

unfoldable pub set_all : Str → List Str → Env → Env
set_all key [] env = env
set_all key (v ∷ vs) env = set_all key vs (set key v env)

unfoldable pub init_multi_from : MultiMap → Env → Env
unfolding set_all
init_multi_from [] env = env
init_multi_from ((k, vs) ∷ rest) env = init_multi_from rest (set_all k vs env)

unfoldable pub init_multi_map : MultiMap → Env
unfolding init_multi_from
init_multi_map m = init_multi_from m []

abbrev pub Keyed : MultiMap → Type 0
Keyed [] = Unit
Keyed ((k, vs) ∷ m) = NoByte b'=' k × (lookup k m ≡ none) × Keyed m

multi_map_from-append :
    (env : Env) (key value : Str) (m a : MultiMap)
    → NoByte b'=' key
    → multi_map_from env m ≡ some a
    → multi_map_from (set key value env) m ≡ some (insert key (values_of key a ++ value ∷ []) a)
unfolding multi_map_from set
multi_map_from-append [] key value m a free h =
    let same : m ≡ a = ground arith in
    rw (multi_map_from, cut-append b'=' key value free, same) refl
multi_map_from-append (kv ∷ env) key value m a free h = elim (Option-cases (cut b'=' kv)) [
  | inl e ↦ absurd (ground (arith, e))
  | inr ((k, v), e) ↦
      let next = insert k (values_of k m ++ v ∷ []) m in
      let rest : multi_map_from env next ≡ some a = ground (arith, e) in
      let ih = multi_map_from-append env key value next a free rest in rw (multi_map_from, e) ih
]

values_of-insert :
    (k j : Str) (vs : List Str) (m : MultiMap)
    → values_of j (insert k vs m) ≡ (if k == j then vs else values_of j m)
unfolding values_of
values_of-insert k j vs m = ground (arith, lookup-insert k j vs m)

abbrev added : Str → List Str → Str → List Str → List Str
added k vs j old = if k == j then old ++ vs else old

values_of-added :
    (k j : Str) (v : Str) (vs : List Str) (a : MultiMap)
    → added k vs j (values_of j (insert k (values_of k a ++ v ∷ []) a))
      ≡ added k (v ∷ vs) j (values_of j a)
values_of-added k j v vs a = elim (Bool-cases (k == j)) [
  | inl e ↦
      let same : k ≡ j = (str_eq.beq_iff k j).0 e in
      ground (
        arith,
        e,
        values_of-insert k j (values_of k a ++ v ∷ []) a,
        append_assoc (values_of j a) (v ∷ []) vs,
        ap (λ (s : Str). values_of s a) same,
      )
  | inr e ↦ ground (arith, e, values_of-insert k j (values_of k a ++ v ∷ []) a)
]

abbrev Reads : Env → (Str → List Str) → Type 0
Reads env read = (a : MultiMap) × (multi_map env ≡ some a) × ((j : Str) → values_of j a ≡ read j)

Reads-set_all :
    (k : Str) (vs : List Str) (env : Env) (a : MultiMap)
    → NoByte b'=' k
    → multi_map env ≡ some a
    → Reads (set_all k vs env) (λ j. added k vs j (values_of j a))
unfolding multi_map set_all
Reads-set_all k [] env a free h = (
  a,
  h,
  λ j. elim (Bool-cases (k == j)) [
    | inl e ↦ ground (arith, e, append-nil (values_of j a))
    | inr e ↦ ground (arith, e)
  ],
)
Reads-set_all k (v ∷ vs) env a free h =
    let a₁ = insert k (values_of k a ++ v ∷ []) a in
    let h₁ = multi_map_from-append env k v [] a free h in
    let (a₂, h₂, read) = Reads-set_all k vs (set k v env) a₁ free h₁ in
    (a₂, h₂, λ j. read j ∙ values_of-added k j v vs a)

-- What the map lists for a key, after `old`.
all_from : Str → MultiMap → List Str → List Str
all_from j [] old = old
all_from j ((k, vs) ∷ m) old = all_from j m (added k vs j old)

Reads-init_multi_from :
    (m : MultiMap) (env : Env) (a : MultiMap)
    → Keyed m
    → multi_map env ≡ some a
    → Reads (init_multi_from m env) (λ j. all_from j m (values_of j a))
unfolding init_multi_from all_from
Reads-init_multi_from [] env a keyed h = (a, h, λ j. refl)
Reads-init_multi_from ((k, vs) ∷ m) env a (free, _, keyed) h =
    let (a₁, h₁, read₁) = Reads-set_all k vs env a free h in
    let (a₂, h₂, read₂) = Reads-init_multi_from m (set_all k vs env) a₁ keyed h₁ in
    (a₂, h₂, λ j. read₂ j ∙ ap (all_from j m) (read₁ j))

all_from_absent :
    (j : Str) (m : MultiMap) (old : List Str) → lookup j m ≡ none → all_from j m old ≡ old
unfolding all_from lookup
all_from_absent j [] old h = refl
all_from_absent j ((k, vs) ∷ m) old h = elim (Bool-cases (k == j)) [
  | inl e ↦ absurd (ground (arith, e))
  | inr e ↦
      let rest : lookup j m ≡ none = ground (arith, e) in
      ap (all_from j m) (ground (arith, e)) ∙ all_from_absent j m old rest
]

all_from-Keyed : (j : Str) (m : MultiMap) → Keyed m → all_from j m [] ≡ values_of j m
unfolding all_from values_of lookup
all_from-Keyed j [] keyed = refl
all_from-Keyed j ((k, vs) ∷ m) (_, fresh, keyed) = elim (Bool-cases (k == j)) [
  | inl e ↦
      let same : k ≡ j = (str_eq.beq_iff k j).0 e in
      let absent : lookup j m ≡ none = subst (λ (s : Str). lookup s m ≡ none) same fresh in
      ground (arith, e, all_from_absent j m vs absent)
  | inr e ↦ ground (arith, e, all_from-Keyed j m keyed)
]

-- A map of many values, of distinct keys without "=", comes back from the environment that is made
-- of it: the reading does not panic, and gives each key its values, in their order.
pub multi_map-init_multi_map :
    (m : MultiMap)
    → Keyed m
    → (a : MultiMap) × (multi_map (init_multi_map m) ≡ some a)
      × ((j : Str) → values_of j a ≡ values_of j m)
unfolding init_multi_map multi_map multi_map_from values_of lookup
multi_map-init_multi_map m keyed =
    let (a, h, read) = Reads-init_multi_from m [] [] keyed refl in
    (a, h, λ j. read j ∙ all_from-Keyed j m keyed)
