-- ===== src/Engine/Env.antt =====
-- engine/env.go: the environment of a job, a list of texts of the form "key=value". `encoding/json`
-- is an argument: the operations that go through JSON are in Json.
pub mod Laws
pub mod Multi
pub mod Json
use docker_analysis.Base.{
  ℕ, ◌≡◌, Bool, true, false, ◌||◌, List, [], ◌∷◌, ◌++◌, Option, none, some, if◌then◌else◌, ◌==◌,
  str_eq, Str, codes, is_empty, length, not,
}
use docker_analysis.Base.Decimal.{atoi, print_int}
use docker_analysis.Base.Dict.{lookup, insert}
use docker_analysis.Base.Int.{ℤ, pos}
use docker_analysis.Base.Text.{cut}
use docker_analysis.Base.Trim.{trim, to_lower}

abbrev pub Env : Type 0
Env = List Str

-- The loop of `Get`, which goes on after a match: `value` is the one of the last match.
unfoldable pub get_from : Str → Env → Str → Str
get_from key [] value = value
get_from key (kv ∷ rest) value = elim (cut b'=' kv) [
  | none ↦ get_from key rest value
  | some (k, v) ↦ get_from key rest (if k == key then v else value)
]

unfoldable pub get : Str → Env → Str
unfolding get_from
get key env = get_from key env []

-- The loop of `Map`, from the map that is built so far. An entry without "=" makes it index past
-- the parts of the entry: `none` is that panic.
unfoldable pub map_from : Env → List (Str × Str) → Option (List (Str × Str))
map_from [] m = some m
map_from (kv ∷ rest) m = elim (cut b'=' kv) [
  | none ↦ none
  | some (k, v) ↦ map_from rest (insert k v m)
]

unfoldable pub env_map : Env → Option (List (Str × Str))
unfolding map_from
env_map env = map_from env []

unfoldable pub exists : Str → Env → Option Bool
unfolding env_map
exists key env = elim (env_map env) [
  | none ↦ none
  | some m ↦ elim (lookup key m) [ none ↦ some false | some _ ↦ some true ]
]

-- `Len`, the number of keys.
unfoldable pub size : Env → Option ℕ
unfolding env_map
size env = elim (env_map env) [ none ↦ none | some m ↦ some (length m) ]

unfoldable pub init_from : Env → Env → Env
init_from [] env = env
init_from (val ∷ rest) env = init_from rest (env ++ val ∷ [])

unfoldable pub init : Env → Env
unfolding init_from
init src = init_from src []

unfoldable pub set : Str → Str → Env → Env
set key value env = env ++ (key ++ b'=' ∷ value) ∷ []

abbrev pub is_falsy : Str → Bool
is_falsy s =
    is_empty s
    || (s == codes "0")
    || (s == codes "no")
    || (s == codes "false")
    || (s == codes "none")

-- Only ASCII letters are lowered: no other letter is one of those words' letters in lower case.
unfoldable pub get_bool : Str → Env → Bool
unfolding get
get_bool key env = not (is_falsy (to_lower (trim (codes " \t") (get key env))))

unfoldable pub set_bool : Str → Bool → Env → Env
unfolding set
set_bool key true env = set key (codes "1") env
set_bool key false env = set key (codes "0") env

-- `GetInt64`, and `GetInt` where an `int` has 64 bits.
unfoldable pub get_int64 : Str → Env → ℤ
unfolding get
get_int64 key env = elim (atoi (trim (codes " \t") (get key env))) [ none ↦ pos 0 | some v ↦ v ]

-- `SetInt64` and `SetInt`.
unfoldable pub set_int64 : Str → ℤ → Env → Env
unfolding set
set_int64 key value env = set key (print_int value) env
