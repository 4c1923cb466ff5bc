-- ===== src/Engine/Registry.antt =====
-- engine/engine.go: the handlers that an engine knows, and the jobs it makes. A handler is a
-- number, which stands for a function.
pub mod Laws
use docker_analysis.Base.{
  ℕ, suc, ◌≡◌, Bool, true, false, ◌&&◌, ◌||◌, List, [], ◌∷◌, ◌++◌, Option, none, some,
  if◌then◌else◌, ◌==◌, str_eq, Str, codes, is_empty, not, ltb, nat_beq, map,
}
use docker_analysis.Base.Dict.{lookup, insert, delete}
use docker_analysis.Base.Int.{ℤ, pos}
use docker_analysis.Base.Text.{cut}
use docker_analysis.Engine.Env.{Env, set, init}

abbrev pub Handlers : Type 0
Handlers = List (Str × ℕ)

-- `global_handlers` is the variable of the package. `tasks` is the counter of the wait group.
pub record Engine : Type 0 where
  pub handlers : Handlers
  pub catchall : Option ℕ
  pub logging : Bool
  pub tasks : ℕ
  pub shutdown : Bool
  pub on_shutdown : List ℕ

-- `ended` is `!job.end.IsZero()`.
pub record Job : Type 0 where
  pub name : Str
  pub args : List Str
  pub env : Env
  pub handler : Option ℕ
  pub status : ℤ
  pub ended : Bool

-- `Register`, of the package and of an engine. `none` is its error.
unfoldable pub register_in : Str → ℕ → Handlers → Option Handlers
register_in name handler hs = elim (lookup name hs) [
  | some _ ↦ none
  | none ↦ some (insert name handler hs)
]

abbrev pub unregister : Str → Handlers → Handlers
unregister name hs = delete name hs

unfoldable pub register : Str → ℕ → Engine → Option Engine
unfolding register_in
register name handler eng = elim (register_in name handler eng.handlers) [
  | none ↦ none
  | some hs ↦ some (record eng { handlers = hs })
]

unfoldable pub register_catchall : ℕ → Engine → Engine
register_catchall handler eng = record eng { catchall = some handler }

-- The loop that copies the global handlers.
unfoldable pub copy_handlers : Handlers → Handlers → Handlers
copy_handlers [] hs = hs
copy_handlers ((name, h) ∷ rest) hs = copy_handlers rest (insert name h hs)

-- `New`, with the handler that prints the commands.
unfoldable pub new_engine : ℕ → Handlers → Engine
unfolding copy_handlers
new_engine print_commands globals = record {
  handlers = copy_handlers globals ((codes "commands", print_commands) ∷ []);
  catchall = none;
  logging = true;
  tasks = 0;
  shutdown = false;
  on_shutdown = [];
}

-- The order of Go's strings: byte by byte.
unfoldable pub str_leb : Str → Str → Bool
str_leb [] t = true
str_leb (x ∷ xs) [] = false
str_leb (x ∷ xs) (y ∷ ys) = ltb x y || nat_beq x y && str_leb xs ys

unfoldable pub place : Str → List Str → List Str
unfolding str_leb
place s [] = s ∷ []
place s (t ∷ ts) = let rest = place s ts in if str_leb s t then s ∷ t ∷ ts else t ∷ rest

-- `sort.Strings`
unfoldable pub sort : List Str → List Str
unfolding place
sort [] = []
sort (s ∷ ss) = place s (sort ss)

unfoldable pub names_of : Handlers → List Str
names_of [] = []
names_of ((name, _) ∷ hs) = name ∷ names_of hs

unfoldable pub commands : Engine → List Str
unfolding names_of sort
commands eng = sort (names_of eng.handlers)

-- The handler that `Job` finds: a registered one shadows the catchall, which takes no empty name.
unfoldable pub find_handler : Str → Engine → Option ℕ
find_handler name eng = elim (lookup name eng.handlers) [
  | some h ↦ some h
  | none ↦ if is_empty name then none else eng.catchall
]

unfoldable pub new_job : Str → List Str → Engine → Job
unfolding find_handler
new_job name args eng = record {
  name = name;
  args = args;
  env = [];
  handler = find_handler name eng;
  status = pos 0;
  ended = false;
}

-- The loop of `ParseJob` over the words.
unfoldable pub sort_words : List Str → List Str → Env → List Str × Env
unfolding set
sort_words [] cmd env = (cmd, env)
sort_words (word ∷ ws) cmd env = elim (cut b'=' word) [
  | some (k, v) ↦ sort_words ws cmd (set k v env)
  | none ↦ sort_words ws (cmd ++ word ∷ []) env
]

-- The job of a command, in its environment.
unfoldable pub make_job : List Str → Env → Engine → Option Job
unfolding new_job init
make_job [] env eng = none
make_job (name ∷ args) env eng = some (record (new_job name args eng) { env = init env })

-- `ParseJob`. `scan` is `bufio.Scanner` with `bufio.ScanWords`: the words that it gives before it
-- stops, at the end of the text or, as its error is not looked at, at a word over its limit. `none`
-- is the error of `ParseJob`.
unfoldable pub parse_job : (Str → List Str) → Str → Engine → Option Job
unfolding sort_words make_job
parse_job scan input eng = let (cmd, env) = sort_words (scan input) [] [] in make_job cmd env eng

unfoldable pub add_on_shutdown : ℕ → Engine → Engine
add_on_shutdown h eng = record eng { on_shutdown = eng.on_shutdown ++ h ∷ [] }
