-- ===== src/Engine/Table.antt =====
-- engine/table.go: a list of environments, ordered by the value of a key. `sort.Sort` puts the rows
-- in the order that `Less` gives where that is a strict weak order; here it is insertion.
use docker_analysis.Base.{
  ℕ, suc, zero, ◌≡◌, Bool, true, false, ◌&&◌, ◌||◌, List, [], ◌∷◌, ◌++◌, Option, none, some,
  if◌then◌else◌, ◌==◌, str_eq, Str, codes, not, length, arith, refl, Option-cases, Bool-cases, inl,
  inr, nat_beq, ltb, ◌∙◌, ap, ap₂,
}
use docker_analysis.Base.Decimal.{atoi, print_int}
use docker_analysis.Base.Int.{ℤ, int_leb}
use docker_analysis.Base.Signed.{Int64, atoi-print_int}
use docker_analysis.Engine.Env.{Env, get}
use docker_analysis.Engine.Env.Json.{
  null, bool_value, float_value, int_value, text_value, list_value, map_value, Values, no_values,
  value_and, Library, set_fields, encode,
}
use docker_analysis.Engine.Registry.{str_leb}

pub record Table : Type 0 where
  pub rows : List Env
  pub sort_key : Str

abbrev pub new_table : Str → Table
new_table sort_key = record { rows = []; sort_key = sort_key }

abbrev pub set_key : Str → Table → Table
set_key sort_key t = record t { sort_key = sort_key }

unfoldable pub add_row : Env → Table → Table
add_row env t = record t { rows = t.rows ++ env ∷ [] }

abbrev pub size : Table → ℕ
size t = length t.rows

-- The order of two keys: by number where both are numbers, by bytes otherwise.
unfoldable pub less_keys : Str → Str → Bool
unfolding str_leb
less_keys a b = elim (atoi a) [
  | none ↦ not (str_leb b a)
  | some m ↦ elim (atoi b) [ none ↦ not (str_leb b a) | some n ↦ not (int_leb n m) ]
]

-- `lessBy` for two rows.
unfoldable pub less_by : Str → Env → Env → Bool
unfolding less_keys get
less_by by a b = less_keys (get by a) (get by b)

module _ {F : Type 0} (json : Library F) where
  -- The rest of the list that `WriteListTo` writes after a row or "[". `none` is an error or a
  -- panic of a row.
  unfoldable pub write_rows : List Env → Option Str
  unfolding encode
  write_rows [] = some (codes "]")
  write_rows (env ∷ rows) = elim (encode json env) [
    | none ↦ none
    | some none ↦ none
    | some (some text) ↦ elim (write_rows rows) [
      | none ↦ none
      | some rest ↦ elim rows [ [] ↦ some (text ++ rest) | _ ∷ _ ↦ some (text ++ b',' ∷ rest) ]
    ]
  ]

  unfoldable pub to_list_string : Table → Option Str
  unfolding write_rows
  to_list_string t = elim (write_rows t.rows) [ none ↦ none | some rest ↦ some (b'[' ∷ rest) ]

  -- The loop of `ReadListFrom` over the values of a list: those that are no dictionary are left out.
  unfoldable pub read_values : Values F → Table → Table
  unfolding set_fields add_row
  read_values no_values t = t
  read_values (value_and (map_value fields) vs) t =
      read_values vs (add_row (set_fields json fields []) t)
  read_values (value_and null vs) t = read_values vs t
  read_values (value_and (bool_value _) vs) t = read_values vs t
  read_values (value_and (float_value _) vs) t = read_values vs t
  read_values (value_and (int_value _) vs) t = read_values vs t
  read_values (value_and (text_value _) vs) t = read_values vs t
  read_values (value_and (list_value _) vs) t = read_values vs t

less_keys-print_int :
    (m n : ℤ) → Int64 m → Int64 n → less_keys (print_int m) (print_int n) ≡ not (int_leb n m)
unfolding less_keys
less_keys-print_int m n fm fn = rw (less_keys, atoi-print_int m fm, atoi-print_int n fn) refl

-- Two rows whose keys are printed numbers stand in the order of the numbers.
pub less_by_number :
    (by : Str) (a b : Env) (m n : ℤ)
    → Int64 m
    → Int64 n
    → get by a ≡ print_int m
    → get by b ≡ print_int n
    → less_by by a b ≡ not (int_leb n m)
unfolding less_by
less_by_number by a b m n fm fn ka kb = ap₂ less_keys ka kb ∙ less_keys-print_int m n fm fn

-- "10" comes before "1a", "1a" before "9", and "9" before "10": the order has a cycle.
less_keys_cycle :
    (less_keys (codes "10") (codes "1a") ≡ true)
    × (less_keys (codes "1a") (codes "9") ≡ true)
    × (less_keys (codes "9") (codes "10") ≡ true)
unfolding less_keys docker_analysis.Base.Decimal.atoi docker_analysis.Base.Decimal.parse_uint
    docker_analysis.Base.Decimal.digits_from
less_keys_cycle = (refl, refl, refl)
