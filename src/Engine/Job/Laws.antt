-- ===== src/Engine/Job/Laws.antt =====
-- When a job runs, and what its run reports.
use docker_analysis.Base.{
  ℕ, ◌≡◌, ◌≢◌, ◌↔◌, inl, inr, true, false, none, some, str_eq, Str, arith, refl, Option-cases,
  Bool-cases,
}
use docker_analysis.Base.Int.{pos}
use docker_analysis.Engine.Registry.{Engine, Job}
use docker_analysis.Engine.Job.{World, counted, call_handler, finish, begin_task, end_task, run}

abbrev pub Closes : World → Type 0
Closes w = (w.close_stdout ≡ none) × (w.close_stderr ≡ none) × (w.close_stdin ≡ none)

finish-none :
    (w : World) (job : Job) (text : Str)
    → (finish w job text ≡ none) ↔ (Closes w × (job.status ≡ pos 0))
unfolding finish
finish-none w job text = ground arith

end_task-begin_task : (job : Job) (eng : Engine) → end_task job (begin_task job eng) ≡ eng
unfolding end_task begin_task
end_task-begin_task job eng = elim (Bool-cases (counted job)) [
  | inl e ↦ rw (end_task, begin_task, e) (ground arith)
  | inr e ↦ rw (end_task, begin_task, e) refl
]

-- `Run` reports no error exactly when the engine is not shut down, the job has not completed
-- before, it has a handler which returns the status 0, and all three streams close.
pub run_succeeds_iff :
    (w : World) (job : Job) (eng : Engine)
    → ((run w job eng).error ≡ none) ↔ (
        (eng.shutdown ≡ false)
        × (job.ended ≡ false)
        × ((h : ℕ) × (job.handler ≡ some h) × ((w.call h job (begin_task job eng)).status ≡ pos 0))
        × Closes w)
unfolding run call_handler finish
run_succeeds_iff w job eng = elim (Option-cases job.handler) [
  | inl e ↦ (
    λ r. absurd (ground (arith, e)),
    λ (up, new, (h, has, zero), closes). absurd (ground (arith, e)),
  )
  | inr (h, e) ↦ (
    λ r. (ground arith, ground arith, (h, e, ground (arith, e)), ground (arith, e)),
    λ (up, new, (k, has, zero), closes). ground (arith, e),
  )
]

-- After a run that reached a handler the job is complete: every later run of it fails, does
-- not call the handler, and changes neither the job nor the engine.
pub run_once :
    (w v : World) (job : Job) (eng later : Engine) (h : ℕ)
    → eng.shutdown ≡ false
    → job.handler ≡ some h
    → ((run v (run w job eng).job later).error ≢ none)
      × ((run v (run w job eng).job later).job ≡ (run w job eng).job)
      × ((run v (run w job eng).job later).engine ≡ later)
unfolding run call_handler
run_once w v job eng later h up has = elim (Bool-cases job.ended) [
  | inl done ↦ ground (arith, end_task-begin_task job later)
  | inr new ↦ ground (
    arith,
    end_task-begin_task
        (record job {
          env = (w.call h job (begin_task job eng)).env;
          args = (w.call h job (begin_task job eng)).args;
          status = (w.call h job (begin_task job eng)).status;
          ended = true;
        })
        later,
  )
]
