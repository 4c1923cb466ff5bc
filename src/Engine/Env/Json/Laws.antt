-- ===== src/Engine/Env/Json/Laws.antt =====
-- What a job reads back from an environment that JSON was decoded into.
use docker_analysis.Base.{
  ℕ, ◌≡◌, false, List, [], ◌∷◌, none, some, if◌then◌else◌, ◌==◌, str_eq, Str, refl, ap, ◌∙◌,
  Option-cases, inl, inr, eq_refl,
}
use docker_analysis.Base.Decimal.{print_int}
use docker_analysis.Base.Text.{NoByte}
use docker_analysis.Engine.Env.{Env, get, set, set_int64}
use docker_analysis.Engine.Env.Json.{
  Value, null, bool_value, float_value, int_value, text_value, list_value, map_value, Values,
  no_values, value_and, Fields, no_fields, field_and, Library, set_marshalled, set_auto, set_fields,
  decode, change_floats, change_values, change_fields, encoded_value, encoded_fields, get_list,
  set_json, set_list, texts,
}
use docker_analysis.Engine.Env.Laws.{get-set}

-- No float is in the value, at any depth.
abbrev mutual
  FloatFree : {F : Type 0} → Value F → Type 0
  FloatFree null = Unit
  FloatFree (bool_value b) = Unit
  FloatFree (float_value f) = ⊥
  FloatFree (int_value n) = Unit
  FloatFree (text_value s) = Unit
  FloatFree (list_value vs) = FloatFreeValues vs
  FloatFree (map_value fs) = FloatFreeFields fs

  FloatFreeValues : {F : Type 0} → Values F → Type 0
  FloatFreeValues no_values = Unit
  FloatFreeValues (value_and v vs) = FloatFree v × FloatFreeValues vs

  FloatFreeFields : {F : Type 0} → Fields F → Type 0
  FloatFreeFields no_fields = Unit
  FloatFreeFields (field_and k v fs) = FloatFree v × FloatFreeFields fs

module _ {F : Type 0} (json : Library F) where
  -- The text that a decoded value leaves in the environment.
  abbrev pub text_or_show : Value F → Str
  text_or_show v = elim (json.marshal v) [ some val ↦ val | none ↦ json.show v ]

  abbrev pub text_of : Value F → Str
  text_of null = text_or_show null
  text_of (bool_value b) = text_or_show (bool_value b)
  text_of (float_value f) = print_int (json.to_int f)
  text_of (int_value n) = text_or_show (int_value n)
  text_of (text_value s) = s
  text_of (list_value vs) = text_or_show (list_value vs)
  text_of (map_value fs) = text_or_show (map_value fs)

  -- The text of the last field of that name, or `old`.
  abbrev pub last_text : Str → Fields F → Str → Str
  last_text key no_fields old = old
  last_text key (field_and k v rest) old = last_text key rest (if k == key then text_of v else old)

  abbrev pub NamesFree : Fields F → Type 0
  NamesFree no_fields = Unit
  NamesFree (field_and k v rest) = NoByte b'=' k × NamesFree rest

  set_marshalled-set :
      (k : Str) (v : Value F) (env : Env) → set_marshalled json k v env ≡ set k (text_or_show v) env
  unfolding set_marshalled
  set_marshalled-set k v env = elim (Option-cases (json.marshal v)) [
    | inl e ↦ rw (set_marshalled, text_or_show, e) refl
    | inr (val, e) ↦ rw (set_marshalled, text_or_show, e) refl
  ]

  set_auto-set : (k : Str) (v : Value F) (env : Env) → set_auto json k v env ≡ set k (text_of v) env
  unfolding set_auto set_int64
  set_auto-set k null env = set_marshalled-set k null env
  set_auto-set k (bool_value b) env = set_marshalled-set k (bool_value b) env
  set_auto-set k (float_value f) env = refl
  set_auto-set k (int_value n) env = set_marshalled-set k (int_value n) env
  set_auto-set k (text_value s) env = refl
  set_auto-set k (list_value vs) env = set_marshalled-set k (list_value vs) env
  set_auto-set k (map_value fs) env = set_marshalled-set k (map_value fs) env

  get-set_fields :
      (fields : Fields F) (key : Str) (env : Env)
      → NamesFree fields
      → get key (set_fields json fields env) ≡ last_text key fields (get key env)
  unfolding set_fields
  get-set_fields no_fields key env free = refl
  get-set_fields (field_and k v rest) key env (here, free) =
      get-set_fields rest key (set_auto json k v env) free
      ∙ ap (last_text key rest)
          (ap (get key) (set_auto-set k v env) ∙ get-set k (text_of v) key env here)

  -- Text that decodes into a dictionary of names without "=" is added to the environment: a name
  -- of the dictionary then reads as the text of its last value, a float as the number it was
  -- converted to, and every other name as before.
  pub get-decode :
      (src : Str) (fields : Fields F) (env : Env)
      → json.decode_map src ≡ some fields
      → NamesFree fields
      → (env' : Env) × (decode json src env ≡ some env')
        × ((key : Str) → get key env' ≡ last_text key fields (get key env))
  unfolding decode
  get-decode src fields env h free =
      (set_fields json fields env, rw (decode, h) refl, λ key. get-set_fields fields key env free)

  -- A list that is set under a key without "=" is read back, where JSON marshals it into a text
  -- that is not empty and reads that text back.
  pub get_list-set_list :
      (key : Str) (l : List Str) (c : ℕ) (cs : Str) (env : Env)
      → NoByte b'=' key
      → json.marshal (list_value (texts l)) ≡ some (c ∷ cs)
      → json.unmarshal_list (c ∷ cs) ≡ (l, false)
      → (env' : Env) × (set_list json key l env ≡ some env') × (get_list json key env' ≡ l)
  unfolding set_list set_json get_list
  get_list-set_list key l c cs env free wrote reads =
      let read : get key (set key (c ∷ cs) env) ≡ c ∷ cs =
        get-set key (c ∷ cs) key env free
        ∙ ap (λ b. if b then c ∷ cs else get key env) (eq_refl key) in
      (set key (c ∷ cs) env, rw (set_list, set_json, wrote) refl, rw (get_list, read, reads) refl)

  mutual
    unfolding change_floats change_values change_fields

    change_floats-FloatFree : (v : Value F) → FloatFree (change_floats json v)
    change_floats-FloatFree null = tt
    change_floats-FloatFree (bool_value b) = tt
    change_floats-FloatFree (float_value f) = tt
    change_floats-FloatFree (int_value n) = tt
    change_floats-FloatFree (text_value s) = tt
    change_floats-FloatFree (list_value vs) = change_values-FloatFree vs
    change_floats-FloatFree (map_value fs) = change_fields-FloatFree fs

    change_values-FloatFree : (vs : Values F) → FloatFreeValues (change_values json vs)
    change_values-FloatFree no_values = tt
    change_values-FloatFree (value_and v vs) =
        (change_floats-FloatFree v, change_values-FloatFree vs)

    change_fields-FloatFree : (fs : Fields F) → FloatFreeFields (change_fields json fs)
    change_fields-FloatFree no_fields = tt
    change_fields-FloatFree (field_and k v fs) =
        (change_floats-FloatFree v, change_fields-FloatFree fs)

  encoded_value-FloatFree : (v : Str) → FloatFree (encoded_value json v)
  unfolding encoded_value
  encoded_value-FloatFree v = elim (Option-cases (json.unmarshal v)) [
    | inl e ↦ rw (encoded_value, e) tt
    | inr (val, e) ↦ rw (encoded_value, e) (change_floats-FloatFree val)
  ]

  -- The dictionary that `Encode` hands to the encoder holds no float, at any depth: each float that
  -- a text of the environment decodes into was converted.
  encoded_fields-FloatFree : (m : List (Str × Str)) → FloatFreeFields (encoded_fields json m)
  unfolding encoded_fields
  encoded_fields-FloatFree [] = tt
  encoded_fields-FloatFree ((k, v) ∷ m) = (encoded_value-FloatFree v, encoded_fields-FloatFree m)
