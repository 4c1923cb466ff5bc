-- ===== src/Engine/Registry/Laws.antt =====
-- What is registered is found, and how a text is made into a job.
use docker_analysis.Base.{
  ℕ, ◌≡◌, ◌≢◌, ◌⊎◌, Bool, true, false, ◌||◌, List, [], ◌∷◌, Option, none, some, if◌then◌else◌, ◌==◌,
  str_eq, Str, arith, refl, Option-cases, Bool-cases, inl, inr, ◌∙◌,
}
use docker_analysis.Base.Dict.{lookup, insert, lookup-insert}
use docker_analysis.Base.Keys.{contains}
use docker_analysis.Base.Text.{contains_byte}
use docker_analysis.Engine.Env.{Env}
use docker_analysis.Engine.Registry.{
  Handlers, Engine, Job, register_in, register, find_handler, new_job, str_leb, place, sort,
  names_of, commands,
}

-- Registering fails exactly when the name is taken; otherwise the name gets the handler, over a
-- catchall too, and no other name changes.
pub find_handler-register :
    (name : Str) (h : ℕ) (eng : Engine) (other : Str)
    → (lookup name eng.handlers ≢ none × (register name h eng ≡ none))
      ⊎ ((eng' : Engine) × (lookup name eng.handlers ≡ none)
          × (register name h eng ≡ some eng')
          × (find_handler other eng' ≡ (if name == other then some h else find_handler other eng)))
unfolding register register_in find_handler
find_handler-register name h eng other = elim (Option-cases (lookup name eng.handlers)) [
  | inr (g, e) ↦ inl (λ n. absurd (ground (arith, e)), ground (arith, e))
  | inl e ↦ inr (
    record eng { handlers = insert name h eng.handlers },
    e,
    ground (arith, e),
    ground (arith, e, lookup-insert name other h eng.handlers),
  )
]

-- The words of the form KEY=VALUE, and the others.
abbrev pub with_equals : List Str → List Str
with_equals [] = []
with_equals (w ∷ ws) = let rest = with_equals ws in if contains_byte b'=' w then w ∷ rest else rest

abbrev pub without_equals : List Str → List Str
without_equals [] = []
without_equals (w ∷ ws) =
    let rest = without_equals ws in if contains_byte b'=' w then rest else w ∷ rest

-- The job of a command line: the words without "=" name it and its arguments, the others are its
-- environment.
abbrev pub job_of : List Str → Env → Engine → Option Job
job_of [] env eng = none
job_of (name ∷ args) env eng = some (record (new_job name args eng) { env = env })

-- Each text is at most the next one.
abbrev pub Sorted : List Str → Type 0
Sorted [] = Unit
Sorted (s ∷ []) = Unit
Sorted (s ∷ t ∷ ts) = (str_leb s t ≡ true) × Sorted (t ∷ ts)

str_leb-total : (s t : Str) → str_leb s t ≡ false → str_leb t s ≡ true
unfolding str_leb
str_leb-total [] t h = absurd (ground arith)
str_leb-total (x ∷ xs) [] h = refl
str_leb-total (x ∷ xs) (y ∷ ys) h = ground (arith, str_leb-total xs ys)

place-Sorted : (s : Str) (ts : List Str) → Sorted ts → Sorted (place s ts)
unfolding place
place-Sorted s [] h = tt
place-Sorted s (t ∷ ts) h = elim (Bool-cases (str_leb s t)) [
  | inl e ↦ rw (place, e) (e, h)
  | inr e ↦ rw (place, e) (after s t ts e (str_leb-total s t e) h (place-Sorted s ts (rest t ts h)))
]
  where
    rest : (t : Str) (ts : List Str) → Sorted (t ∷ ts) → Sorted ts
    rest t [] h = tt
    rest t (u ∷ ts) (_, h) = h

    after :
        (s t : Str) (ts : List Str)
        → str_leb s t ≡ false
        → str_leb t s ≡ true
        → Sorted (t ∷ ts)
        → Sorted (place s ts)
        → Sorted (t ∷ place s ts)
    after s t [] e f h g = (f, tt)
    after s t (u ∷ ts) e f (here, h) g = elim (Bool-cases (str_leb s u)) [
      | inl e' ↦ ground arith
      | inr e' ↦ ground arith
    ]

sort-Sorted : (ss : List Str) → Sorted (sort ss)
unfolding sort
sort-Sorted [] = tt
sort-Sorted (s ∷ ss) = place-Sorted s (sort ss) (sort-Sorted ss)

contains-place :
    (s : Str) (ts : List Str) (x : Str) → contains (place s ts) x ≡ ((s == x) || contains ts x)
unfolding place contains
contains-place s [] x = refl
contains-place s (t ∷ ts) x = ground (arith, contains-place s ts x)

contains-sort : (ss : List Str) (x : Str) → contains (sort ss) x ≡ contains ss x
unfolding sort contains
contains-sort [] x = refl
contains-sort (s ∷ ss) x = ground (arith, contains-place s (sort ss) x, contains-sort ss x)

abbrev pub is_registered : Str → Handlers → Bool
is_registered name hs = elim (lookup name hs) [ none ↦ false | some _ ↦ true ]

contains-names_of : (hs : Handlers) (x : Str) → contains (names_of hs) x ≡ is_registered x hs
unfolding names_of contains lookup
contains-names_of [] x = refl
contains-names_of ((name, h) ∷ hs) x = ground (arith, contains-names_of hs x)

-- The commands are in alphabetical order, and are the names that have a handler.
pub contains-commands :
    (eng : Engine)
    → Sorted (commands eng)
      × ((name : Str) → contains (commands eng) name ≡ is_registered name eng.handlers)
unfolding commands
contains-commands eng = (
  sort-Sorted (names_of eng.handlers),
  λ name. contains-sort (names_of eng.handlers) name ∙ contains-names_of eng.handlers name,
)
