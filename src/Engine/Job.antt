-- ===== src/Engine/Job.antt =====
-- engine/job.go: the run of a job. What a handler does and whether the streams close are arguments.
pub mod Laws
use docker_analysis.Base.{
  ℕ, suc, ◌+◌, ◌≡◌, Bool, true, false, ◌&&◌, ◌||◌, List, [], ◌∷◌, ◌++◌, Option, none, some,
  if◌then◌else◌, ◌==◌, str_eq, Str, codes, not,
}
use docker_analysis.Base.Int.{ℤ, pos, is_zero}
use docker_analysis.Base.Decimal.{print_int}
use docker_analysis.Engine.Env.{Env}
use docker_analysis.Engine.Registry.{Engine, Job}
use docker_analysis.Engine.Streams.{tail}
use Prim.Native.Nat.{◌-◌}

-- What a handler leaves: its status, the text that has reached the buffer on the job's Stderr, and
-- the job and the engine as far as it changes them.
pub record Effect : Type 0 where
  pub status : ℤ
  pub error_text : Str
  pub env : Env
  pub args : List Str
  pub engine : Engine

-- `call` calls a handler; the rest is the error of the Close of each stream.
pub record World : Type 0 where
  pub call : ℕ → Job → Engine → Effect
  pub close_stdout : Option Str
  pub close_stderr : Option Str
  pub close_stdin : Option Str

pub data RunError : Type 0 where
  engine_is_shutdown already_completed : RunError
  not_closed failed : Str → RunError

pub record Ran : Type 0 where
  pub error : Option RunError
  pub job : Job
  pub engine : Engine

abbrev pub counted : Job → Bool
counted job = not (job.name == codes "serveapi")

abbrev pub status_not_found : ℤ
status_not_found = pos 127

-- The job after its handler, the engine, and the text in the buffer.
unfoldable pub call_handler : World → Job → Engine → Job × Engine × Str
call_handler w job eng = elim job.handler [
  | none ↦
      (record job { status = status_not_found }, eng, job.name ++ codes ": command not found\n")
  | some h ↦
      let e = w.call h job eng in
      (
        record job { env = e.env; args = e.args; status = e.status; ended = true },
        e.engine,
        e.error_text,
      )
]

-- The last part of `Run`: the streams are closed, and then the status is looked at.
unfoldable pub finish : World → Job → Str → Option RunError
finish w job text = elim w.close_stdout [
  | some e ↦ some (not_closed e)
  | none ↦ elim w.close_stderr [
    | some e ↦ some (not_closed e)
    | none ↦ elim w.close_stdin [
      | some e ↦ some (not_closed e)
      | none ↦ if is_zero job.status then none else some (failed (tail text 1))
    ]
  ]
]

-- `eng.tasks.Add(1)`
unfoldable pub begin_task : Job → Engine → Engine
begin_task job eng = if counted job then record eng { tasks = suc eng.tasks } else eng

-- The deferred `eng.tasks.Done()`.
unfoldable pub end_task : Job → Engine → Engine
end_task job eng = if counted job then record eng { tasks = eng.tasks - 1 } else eng

unfoldable pub run : World → Job → Engine → Ran
unfolding call_handler finish begin_task end_task
run w job eng =
    if eng.shutdown
    then record { error = some engine_is_shutdown; job = job; engine = eng }
    else if job.ended
    then record {
      error = some already_completed;
      job = job;
      engine = end_task job (begin_task job eng);
    }
    else let (job', eng', text) = call_handler w job (begin_task job eng) in
      record { error = finish w job' text; job = job'; engine = end_task job eng' }

unfoldable pub join_args : List Str → Str
join_args [] = []
join_args (a ∷ []) = a
join_args (a ∷ b ∷ rest) = a ++ (codes ", " ++ join_args (b ∷ rest))

unfoldable pub call_string : Job → Str
unfolding join_args
call_string job = job.name ++ (codes "(" ++ (join_args job.args ++ codes ")"))

unfoldable pub status_string : Job → Str
status_string job =
    if job.ended
    then codes " = "
      ++ ((if is_zero job.status then codes "OK" else codes "ERR")
          ++ (codes " (" ++ (print_int job.status ++ codes ")")))
    else []
