-- ===== src/Engine/Env/Laws.antt =====
-- What a job reads back from its environment.
use docker_analysis.Base.{
  ℕ, ◌≡◌, Bool, true, false, List, [], ◌∷◌, ◌++◌, Option, none, some, if◌then◌else◌, ◌==◌, str_eq,
  Str, codes, arith, refl, inl, inr, ap, ◌∙◌, Option-cases, Bool-cases, eq_refl,
}
use docker_analysis.Base.Decimal.{print_int}
use docker_analysis.Base.Dict.{lookup, insert, lookup-insert}
use docker_analysis.Base.Int.{ℤ}
use docker_analysis.Base.Signed.{Int64, atoi-print_int, trim-print_int}
use docker_analysis.Base.Text.{cut, contains_byte, NoByte, cut-append}
use docker_analysis.Base.Trim.{trim, to_lower}
use docker_analysis.Engine.Env.{
  Env, get_from, get, map_from, env_map, set, get_bool, set_bool, get_int64, set_int64,
}

pub get_from-append :
    (key : Str) (env rest : Env) (value : Str)
    → get_from key (env ++ rest) value ≡ get_from key rest (get_from key env value)
unfolding get_from
get_from-append key [] rest value = refl
get_from-append key (kv ∷ env) rest value = elim (Option-cases (cut b'=' kv)) [
  | inl e ↦ rw (get_from, e) (get_from-append key env rest value)
  | inr ((k, v), e) ↦
      rw (get_from, e) (get_from-append key env rest (if k == key then v else value))
]

-- A key without "=" that is set reads back as the value that was set, and every other key as
-- before.
pub get-set :
    (key value other : Str) (env : Env)
    → NoByte b'=' key
    → get other (set key value env) ≡ (if key == other then value else get other env)
unfolding get set get_from
get-set key value other env free =
    get_from-append other env ((key ++ b'=' ∷ value) ∷ []) []
    ∙ rw (get_from, cut-append b'=' key value free) refl

-- A number of 64 bits that is set under a key without "=" is read back, whatever the environment
-- held before.
pub get_int64-set_int64 :
    (key : Str) (v : ℤ) (env : Env)
    → NoByte b'=' key
    → Int64 v
    → get_int64 key (set_int64 key v env) ≡ v
unfolding get_int64 set_int64
get_int64-set_int64 key v env free fits =
    let read : get key (set key (print_int v) env) ≡ print_int v =
      get-set key (print_int v) key env free
      ∙ ap (λ b. if b then print_int v else get key env) (eq_refl key) in
    rw (get_int64, read, trim-print_int v, atoi-print_int v fits) refl

-- The same for a Boolean.
pub get_bool-set_bool :
    (key : Str) (b : Bool) (env : Env) → NoByte b'=' key → get_bool key (set_bool key b env) ≡ b
unfolding get_bool set_bool docker_analysis.Base.Trim.to_lower docker_analysis.Base.Trim.trim
    docker_analysis.Base.Trim.trim_left docker_analysis.Base.Trim.trim_right contains_byte
    docker_analysis.Base.str_beq
get_bool-set_bool key true env free =
    let read : get key (set key (codes "1") env) ≡ codes "1" =
      get-set key (codes "1") key env free
      ∙ ap (λ b. if b then codes "1" else get key env) (eq_refl key) in
    rw (get_bool, read) refl
get_bool-set_bool key false env free =
    let read : get key (set key (codes "0") env) ≡ codes "0" =
      get-set key (codes "0") key env free
      ∙ ap (λ b. if b then codes "0" else get key env) (eq_refl key) in
    rw (get_bool, read) refl

abbrev pub or_empty : Option Str → Str
or_empty none = []
or_empty (some v) = v

get_from-map_from :
    (key : Str) (env : Env) (m m' : List (Str × Str))
    → map_from env m ≡ some m'
    → get_from key env (or_empty (lookup key m)) ≡ or_empty (lookup key m')
unfolding get_from map_from
get_from-map_from key [] m m' h = ground arith
get_from-map_from key (kv ∷ env) m m' h = elim (Option-cases (cut b'=' kv)) [
  | inl e ↦ absurd (ground (arith, e))
  | inr ((k, v), e) ↦
      let rest : map_from env (insert k v m) ≡ some m' = ground (arith, e) in
      let ih = get_from-map_from key env (insert k v m) m' rest in
      let here : or_empty (lookup key (insert k v m))
          ≡ (if k == key then v else or_empty (lookup key m)) =
        ground (arith, lookup-insert k key v m) in
      ground (arith, e, here, ih)
]

-- Where `Map` does not panic, `Get` reads what it holds, and the empty text where it holds nothing.
pub get-env_map :
    (key : Str) (env : Env) (m : List (Str × Str))
    → env_map env ≡ some m
    → get key env ≡ or_empty (lookup key m)
unfolding get env_map lookup
get-env_map key env m h = get_from-map_from key env [] m h
