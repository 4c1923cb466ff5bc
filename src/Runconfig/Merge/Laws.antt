-- ===== src/Runconfig/Merge/Laws.antt =====
-- What a merged configuration holds.
use docker_analysis.Base.{
  ◌≡◌, refl, true, false, ◌||◌, List, [], ◌∷◌, ◌++◌, Option, none, some, arith, if◌then◌else◌, ◌==◌,
  str_eq, str_beq_iff, Str, Bool-cases, inl, inr, ap, ◌∙◌,
}
use docker_analysis.Base.Keys.{contains, add, contains-add}
use docker_analysis.Nat.{PortSet}
use docker_analysis.Runconfig.Merge.{add_all, env_key, defines, merge_env}

pub contains-add_all :
    (ps s : PortSet) (p : Str) → contains (add_all ps s) p ≡ (contains ps p || contains s p)
unfolding add_all contains
contains-add_all [] s p = refl
contains-add_all (q ∷ ps) s p = ground (arith, contains-add_all ps (add q s) p, contains-add q p s)

-- The value that a process finds for a name: the first entry with it.
unfoldable pub find_env : Str → List Str → Option Str
find_env key [] = none
find_env key (e ∷ es) = if key == env_key e then some e else find_env key es

find_env-append :
    (key e : Str) (env : List Str)
    → find_env key (env ++ e ∷ [])
      ≡ (if defines key env then find_env key env else if key == env_key e then some e else none)
unfolding find_env defines
find_env-append key e [] = ground arith
find_env-append key e (x ∷ xs) = ground (arith, find_env-append key e xs)

find_env-none : (key : Str) (env : List Str) → defines key env ≡ false → find_env key env ≡ none
unfolding find_env defines
find_env-none key [] h = refl
find_env-none key (x ∷ xs) h = ground (arith, find_env-none key xs)

defines-append :
    (key e : Str) (env : List Str)
    → defines key (env ++ e ∷ []) ≡ (defines key env || (key == env_key e))
unfolding defines
defines-append key e [] = ground arith
defines-append key e (x ∷ xs) = ground (arith, defines-append key e xs)

own_or :
    (key : Str) (user : List Str) (o : Option Str)
    → o ≡ none
    → find_env key user ≡ (if defines key user then find_env key user else o)
own_or key user o h = elim (Bool-cases (defines key user)) [
  | inl known ↦ rw known refl
  | inr new ↦ rw (new, h) (find_env-none key user new)
]

same_key : (key e : Str) → (key == env_key e) ≡ true → key ≡ env_key e
same_key key e h = (str_beq_iff key (env_key e)).0 h

known_lem :
    (key e : Str) (user : List Str) (o : Option Str)
    → defines (env_key e) user ≡ true
    → (if defines key user then find_env key user else o)
      ≡ (if defines key user then find_env key user else (if key == env_key e then some e else o))
known_lem key e user o h = elim (Bool-cases (key == env_key e)) [
  | inl eq ↦ let d = ap (λ k. defines k user) (same_key key e eq) ∙ h in rw (d) refl
  | inr ne ↦ rw ne refl
]

new_lem :
    (key e : Str) (user : List Str) (o : Option Str)
    → defines (env_key e) user ≡ false
    → (if defines key (user ++ e ∷ []) then find_env key (user ++ e ∷ []) else o)
      ≡ (if defines key user then find_env key user else (if key == env_key e then some e else o))
new_lem key e user o h =
    rw (defines-append key e user, find_env-append key e user)
      elim (Bool-cases (key == env_key e)) [
        | inl eq ↦ let d = ap (λ k. defines k user) (same_key key e eq) ∙ h in rw (d, eq) refl
        | inr ne ↦
            rw ne (elim (Bool-cases (defines key user)) [ inl d ↦ rw d refl | inr d ↦ rw d refl ])
      ]

-- Every variable that the user gives keeps its value, and every other has the image's.
pub find_env-merge_env :
    (key : Str) (user image : List Str)
    → find_env key (merge_env user image)
      ≡ (if defines key user then find_env key user else find_env key image)
unfolding merge_env find_env
find_env-merge_env key user [] = own_or key user none refl
find_env-merge_env key user (e ∷ es) = elim (Bool-cases (defines (env_key e) user)) [
  | inl known ↦
      rw known (find_env-merge_env key user es ∙ known_lem key e user (find_env key es) known)
  | inr new ↦
      rw new (find_env-merge_env key (user ++ e ∷ []) es ∙ new_lem key e user (find_env key es) new)
]
