-- ===== src/Opts.antt =====
-- opts/opts.go: the options that collect a list of values, and two of their validators. A
-- validator gives the value to store, or `none` for its error.
use docker_analysis.Base.{
  ◌≡◌, Bool, true, false, ◌||◌, List, [], ◌∷◌, ◌++◌, Option, none, some, arith, refl, length,
  if◌then◌else◌, ◌==◌, str_eq, Str, codes, ltb,
}
use docker_analysis.Base.Keys.{contains, add, contains-add}
use docker_analysis.Base.Text.{split}
use docker_analysis.Parsers.{part_parser}

abbrev pub Validator : Type 0
Validator = Str → Option Str

pub record ListOpts : Type 0 where
  pub values : List Str
  pub validator : Option Validator

abbrev pub new_list_opts : Option Validator → ListOpts
new_list_opts validator = record { values = []; validator = validator }

-- `none` is the validator's error, after which the values are as before.
unfoldable pub set : Str → ListOpts → Option ListOpts
set value opts = elim opts.validator [
  | none ↦ some (record opts { values = opts.values ++ value ∷ [] })
  | some check ↦ elim (check value) [
    | none ↦ none
    | some v ↦ some (record opts { values = opts.values ++ v ∷ [] })
  ]
]

-- The first value that is the key is taken out.
unfoldable pub without : Str → List Str → List Str
without key [] = []
without key (k ∷ ks) = let rest = without key ks in if k == key then ks else k ∷ rest

unfoldable pub delete : Str → ListOpts → ListOpts
unfolding without
delete key opts = record opts { values = without key opts.values }

-- The keys of the map that `GetMap` makes.
unfoldable pub keys_of : List Str → List Str → List Str
keys_of [] ret = ret
keys_of (k ∷ ks) ret = keys_of ks (add k ret)

unfoldable pub get_map : ListOpts → List Str
unfolding keys_of
get_map opts = keys_of opts.values []

abbrev pub get_all : ListOpts → List Str
get_all opts = opts.values

unfoldable pub has : Str → List Str → Bool
has key [] = false
has key (k ∷ ks) = if k == key then true else has key ks

unfoldable pub get : Str → ListOpts → Bool
unfolding has
get key opts = has key opts.values

unfoldable pub validate_link : Str → Option Str
validate_link val = elim (part_parser (codes "name:alias") val) [ none ↦ none | some _ ↦ some val ]

-- `getenv` is the environment of the process.
unfoldable pub validate_env : (Str → Str) → Str → Option Str
validate_env getenv val =
    if ltb 1 (length (split b'=' val)) then some val else some (val ++ b'=' ∷ getenv val)

contains-keys_of :
    (ks ret : List Str) (key : Str)
    → contains (keys_of ks ret) key ≡ (has key ks || contains ret key)
unfolding keys_of has
contains-keys_of [] ret key = refl
contains-keys_of (k ∷ ks) ret key =
    ground (arith, contains-keys_of ks (add k ret) key, contains-add k key ret)

-- The map of the values has a key exactly when `Get` finds it.
contains-get_map : (opts : ListOpts) (key : Str) → contains (get_map opts) key ≡ get key opts
unfolding get_map get contains
contains-get_map opts key = ground (arith, contains-keys_of opts.values [] key)
