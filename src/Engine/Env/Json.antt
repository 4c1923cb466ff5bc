-- ===== src/Engine/Env/Json.antt =====
-- engine/env.go: the operations of an environment that go through JSON. `encoding/json` is an
-- argument, and so is the type of a 64-bit float.
pub mod Laws
pub mod Floats
use docker_analysis.Base.{
  ℕ, ◌≡◌, Bool, true, false, List, [], ◌∷◌, ◌++◌, Option, none, some, if◌then◌else◌, ◌==◌, str_eq,
  Str, codes, refl, is_empty, ap, ◌∙◌, Option-cases, inl, inr,
}
use docker_analysis.Base.Decimal.{print_int}
use docker_analysis.Base.Int.{ℤ}
use docker_analysis.Base.Text.{NoByte}
use docker_analysis.Engine.Env.{Env, get, set, set_int64, env_map}

-- A value that JSON text is decoded into. `int_value` is what no decoding gives: it stands for a
-- float that was converted.
mutual
  pub data Value (F : Type 0) : Type 0 where
    null : Value F
    bool_value : Bool → Value F
    float_value : F → Value F
    int_value : ℤ → Value F
    text_value : Str → Value F
    list_value : Values F → Value F
    map_value : Fields F → Value F

  pub data Values (F : Type 0) : Type 0 where
    no_values : Values F
    value_and : Value F → Values F → Values F

  pub data Fields (F : Type 0) : Type 0 where
    no_fields : Fields F
    field_and : Str → Value F → Fields F → Fields F

-- `to_int` converts a float to an `int64`. `unmarshal_list` gives the list as far as it was filled,
-- and whether there was an error. `decode_map` decodes a dictionary, in the order in which its keys
-- are then visited.
pub record Library (F : Type 0) : Type 0 where
  pub to_int : F → ℤ
  pub marshal : Value F → Option Str
  pub show : Value F → Str
  pub unmarshal : Str → Option (Value F)
  pub unmarshal_list : Str → List Str × Bool
  pub decode_map : Str → Option (Fields F)
  pub encode_map : Fields F → Option Str

unfoldable pub texts : {F : Type 0} → List Str → Values F
texts [] = no_values
texts (s ∷ ss) = value_and (text_value s) (texts ss)

module _ {F : Type 0} (json : Library F) where
  unfoldable pub get_list : Str → Env → List Str
  unfolding get
  get_list key env =
      let sval = get key env in
      if is_empty sval
      then []
      else let (l, failed) = json.unmarshal_list sval in if failed then l ++ sval ∷ [] else l

  unfoldable pub set_json : Str → Value F → Env → Option Env
  unfolding set
  set_json key value env = elim (json.marshal value) [
    | none ↦ none
    | some sval ↦ some (set key sval env)
  ]

  unfoldable pub set_list : Str → List Str → Env → Option Env
  unfolding set_json texts
  set_list key value env = set_json key (list_value (texts value)) env

  unfoldable pub set_marshalled : Str → Value F → Env → Env
  unfolding set
  set_marshalled k v env = elim (json.marshal v) [
    | some val ↦ set k val env
    | none ↦ set k (json.show v) env
  ]

  unfoldable pub set_auto : Str → Value F → Env → Env
  unfolding set set_int64 set_marshalled
  set_auto k null env = set_marshalled k null env
  set_auto k (bool_value b) env = set_marshalled k (bool_value b) env
  set_auto k (float_value f) env = set_int64 k (json.to_int f) env
  set_auto k (int_value n) env = set_marshalled k (int_value n) env
  set_auto k (text_value s) env = set k s env
  set_auto k (list_value vs) env = set_marshalled k (list_value vs) env
  set_auto k (map_value fs) env = set_marshalled k (map_value fs) env

  unfoldable pub set_fields : Fields F → Env → Env
  unfolding set_auto
  set_fields no_fields env = env
  set_fields (field_and k v rest) env = set_fields rest (set_auto k v env)

  -- `Decode`, from the text that the reader gives. `none` is its error.
  unfoldable pub decode : Str → Env → Option Env
  unfolding set_fields
  decode src env = elim (json.decode_map src) [
    | none ↦ none
    | some fields ↦ some (set_fields fields env)
  ]

  unfoldable mutual
    pub change_floats : Value F → Value F
    change_floats null = null
    change_floats (bool_value b) = bool_value b
    change_floats (float_value f) = int_value (json.to_int f)
    change_floats (int_value n) = int_value n
    change_floats (text_value s) = text_value s
    change_floats (list_value vs) = list_value (change_values vs)
    change_floats (map_value fs) = map_value (change_fields fs)

    pub change_values : Values F → Values F
    change_values no_values = no_values
    change_values (value_and v vs) = value_and (change_floats v) (change_values vs)

    pub change_fields : Fields F → Fields F
    change_fields no_fields = no_fields
    change_fields (field_and k v fs) = field_and k (change_floats v) (change_fields fs)

  unfoldable pub encoded_value : Str → Value F
  unfolding change_floats
  encoded_value v = elim (json.unmarshal v) [ some val ↦ change_floats val | none ↦ text_value v ]

  unfoldable pub encoded_fields : List (Str × Str) → Fields F
  unfolding encoded_value
  encoded_fields [] = no_fields
  encoded_fields ((k, v) ∷ m) = field_and k (encoded_value v) (encoded_fields m)

  -- What `Encode` writes. The outer `none` is the panic of `Map`, the inner one an error.
  unfoldable pub encode : Env → Option (Option Str)
  unfolding env_map encoded_fields
  encode env = elim (env_map env) [
    | none ↦ none
    | some m ↦ some (json.encode_map (encoded_fields m))
  ]

  unfoldable pub get_sub_env : Str → Env → Option Env
  unfolding get decode
  get_sub_env key env = let sval = get key env in if is_empty sval then none else decode sval []

  -- The outer `none` is the panic of `Map`, the inner one an error.
  unfoldable pub set_sub_env : Str → Env → Env → Option (Option Env)
  unfolding encode set
  set_sub_env key sub env = elim (encode sub) [
    | none ↦ none
    | some none ↦ some none
    | some (some text) ↦ some (some (set key text env))
  ]

  -- `Import` of a value.
  unfoldable pub import_value : Value F → Env → Option Env
  unfolding decode
  import_value src env = elim (json.marshal src) [ none ↦ none | some text ↦ decode text env ]
