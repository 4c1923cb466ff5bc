-- ===== src/Engine/Env/Json/Floats.antt =====
-- What `Encode` makes of the floats in an environment.
use docker_analysis.Base.{
  ℕ, suc, ◌≡◌, List, [], ◌∷◌, ◌++◌, none, some, Str, refl, ap, ap₂, ◌∙◌, sym, Option-cases, inl,
  inr, map,
}
use mathlib.Core.List.{map-append}
use docker_analysis.Engine.Env.Json.{
  Value, null, bool_value, float_value, int_value, text_value, list_value, map_value, Values,
  no_values, value_and, Fields, no_fields, field_and, Library, change_floats, change_values,
  change_fields, encoded_value, encoded_fields,
}

-- A step into a list or a dictionary.
pub data Step : Type 0 where
  at_index : ℕ → Step
  at_key : Str → Step

abbrev pub Place : Type 0
Place = List Step

-- All that a value holds, each with its place, in order: what is neither a list nor a dictionary
-- stands for itself, and a list and a dictionary stand as an empty one before what they hold.
unfoldable mutual
  pub parts : {F : Type 0} → Place → Value F → List (Place × Value F)
  parts p null = (p, null) ∷ []
  parts p (bool_value b) = (p, bool_value b) ∷ []
  parts p (float_value f) = (p, float_value f) ∷ []
  parts p (int_value n) = (p, int_value n) ∷ []
  parts p (text_value s) = (p, text_value s) ∷ []
  parts p (list_value vs) = (p, list_value no_values) ∷ parts_of_values p 0 vs
  parts p (map_value fs) = (p, map_value no_fields) ∷ parts_of_fields p fs

  pub parts_of_values : {F : Type 0} → Place → ℕ → Values F → List (Place × Value F)
  parts_of_values p i no_values = []
  parts_of_values p i (value_and v vs) =
      parts (p ++ at_index i ∷ []) v ++ parts_of_values p (suc i) vs

  pub parts_of_fields : {F : Type 0} → Place → Fields F → List (Place × Value F)
  parts_of_fields p no_fields = []
  parts_of_fields p (field_and k v fs) = parts (p ++ at_key k ∷ []) v ++ parts_of_fields p fs

module _ {F : Type 0} (json : Library F) where
  -- A float becomes the integer that it converts to, and all else stays.
  abbrev pub converted : Place × Value F → Place × Value F
  converted (p, null) = (p, null)
  converted (p, bool_value b) = (p, bool_value b)
  converted (p, float_value f) = (p, int_value (json.to_int f))
  converted (p, int_value n) = (p, int_value n)
  converted (p, text_value s) = (p, text_value s)
  converted (p, list_value vs) = (p, list_value vs)
  converted (p, map_value fs) = (p, map_value fs)

  mutual
    unfolding change_floats change_values change_fields parts parts_of_values parts_of_fields

    parts-change_floats :
        (p : Place) (v : Value F) → parts p (change_floats json v) ≡ map converted (parts p v)
    parts-change_floats p null = refl
    parts-change_floats p (bool_value b) = refl
    parts-change_floats p (float_value f) = refl
    parts-change_floats p (int_value n) = refl
    parts-change_floats p (text_value s) = refl
    parts-change_floats p (list_value vs) =
        ap (◌∷◌ (p, list_value no_values)) (parts-change_values p 0 vs)
    parts-change_floats p (map_value fs) =
        ap (◌∷◌ (p, map_value no_fields)) (parts-change_fields p fs)

    parts-change_values :
        (p : Place) (i : ℕ) (vs : Values F)
        → parts_of_values p i (change_values json vs) ≡ map converted (parts_of_values p i vs)
    parts-change_values p i no_values = refl
    parts-change_values p i (value_and v vs) =
        ap₂ ◌++◌ (parts-change_floats (p ++ at_index i ∷ []) v) (parts-change_values p (suc i) vs)
        ∙ sym (map-append converted (parts (p ++ at_index i ∷ []) v) (parts_of_values p (suc i) vs))

    parts-change_fields :
        (p : Place) (fs : Fields F)
        → parts_of_fields p (change_fields json fs) ≡ map converted (parts_of_fields p fs)
    parts-change_fields p no_fields = refl
    parts-change_fields p (field_and k v fs) =
        ap₂ ◌++◌ (parts-change_floats (p ++ at_key k ∷ []) v) (parts-change_fields p fs)
        ∙ sym (map-append converted (parts (p ++ at_key k ∷ []) v) (parts_of_fields p fs))

  -- What a text of the environment stands for: what it decodes into, or itself.
  abbrev pub decoded : Str → Value F
  decoded v = elim (json.unmarshal v) [ some val ↦ val | none ↦ text_value v ]

  abbrev pub decoded_fields : List (Str × Str) → Fields F
  decoded_fields [] = no_fields
  decoded_fields ((k, v) ∷ m) = field_and k (decoded v) (decoded_fields m)

  parts-encoded_value :
      (p : Place) (v : Str) → parts p (encoded_value json v) ≡ map converted (parts p (decoded v))
  unfolding encoded_value parts
  parts-encoded_value p v = elim (Option-cases (json.unmarshal v)) [
    | inl e ↦ rw (encoded_value, decoded, e) refl
    | inr (val, e) ↦ rw (encoded_value, decoded, e) (parts-change_floats p val)
  ]

  -- The dictionary that `Encode` hands to the encoder holds, under each name of the environment, what
  -- its text decodes into, or the text itself where it does not decode. Every part of that, at any
  -- depth, is in its place, and each float is the integer that it converts to.
  pub encoded_fields-converted :
      (m : List (Str × Str)) (p : Place)
      → parts_of_fields p (encoded_fields json m)
        ≡ map converted (parts_of_fields p (decoded_fields m))
  unfolding encoded_fields parts_of_fields
  encoded_fields-converted [] p = refl
  encoded_fields-converted ((k, v) ∷ m) p =
      ap₂ ◌++◌ (parts-encoded_value (p ++ at_key k ∷ []) v) (encoded_fields-converted m p)
      ∙ sym (
          map-append converted (parts (p ++ at_key k ∷ []) (decoded v))
            (parts_of_fields p (decoded_fields m)))
