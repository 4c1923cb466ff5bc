-- ===== src/Engine/Tests.antt =====
-- The theorems on jobs, environments and the engine at concrete values.
use docker_analysis.Base.{
  ℕ, zero, suc, ◌+◌, ◌≡◌, ◌≢◌, ◌⊎◌, ◌↔◌, Bool, true, false, not, ◌&&◌, ◌||◌, List, [], ◌∷◌, ◌++◌,
  Option, none, some, arith, refl, inl, inr, if◌then◌else◌, ◌==◌, str_eq, nat_eq, Str, codes, map,
}
use docker_analysis.Base.Dict.{lookup}
use docker_analysis.Base.Int.{pos, negsuc}
use docker_analysis.Base.Text.{contains_byte}
use docker_analysis.Engine.Env.{Env, get, get_int64, set_int64}
use docker_analysis.Engine.Env.Laws.{get_int64-set_int64}
use docker_analysis.Engine.Env.Multi.{
  MultiMap, values_of, multi_map, init_multi_map, multi_map-init_multi_map,
}
use docker_analysis.Engine.Env.Json.{
  float_value, text_value, Fields, no_fields, field_and, Library, decode, encoded_fields,
}
use docker_analysis.Engine.Env.Json.Laws.{last_text, get-decode}
use docker_analysis.Engine.Env.Json.Floats.{
  parts_of_fields, converted, decoded_fields, encoded_fields-converted,
}
use docker_analysis.Engine.Registry.{Engine, Job, new_engine}
use docker_analysis.Engine.Job.{World, run, begin_task}
use docker_analysis.Engine.Job.Laws.{Closes, run_succeeds_iff, run_once}
use docker_analysis.Engine.Shutdown.{
  Phase, called, admitted, refused, working, Waiter, handlers_called, Thread, System, Event,
  job_step, call_shutdown, idle, run_events, step,
}
use docker_analysis.Engine.Shutdown.Laws.{
  active, phase_at, run_events-Counts, refused_after_shutdown, idle_at_handlers,
  works_after_shutdown,
}

get_int64-set_int64_example :
    get_int64 (codes "HostPort") (set_int64 (codes "HostPort") (negsuc 41) (codes "A=1" ∷ []))
    ≡ negsuc 41
unfolding contains_byte
get_int64-set_int64_example =
    get_int64-set_int64 (codes "HostPort") (negsuc 41) (codes "A=1" ∷ []) refl (omega arith)

abbrev headers : MultiMap
headers = (codes "Accept", codes "text" ∷ codes "a=b" ∷ []) ∷ (codes "Host", codes "x" ∷ []) ∷ []

multi_map-init_multi_map_example :
    (a : MultiMap) × (multi_map (init_multi_map headers) ≡ some a)
    × ((j : Str) → values_of j a ≡ values_of j headers)
unfolding contains_byte lookup docker_analysis.Base.str_beq
multi_map-init_multi_map_example = multi_map-init_multi_map headers (refl, refl, (refl, refl, tt))

-- A library whose floats are numbers, whose only dictionary is {"Size": 3.0, "Name": "x"}.
abbrev fields : Fields ℕ
fields =
    field_and (codes "Size") (float_value 3)
      (field_and (codes "Name") (text_value (codes "x")) no_fields)

abbrev json : Library ℕ
json = record {
  to_int = pos;
  marshal = λ v. some (codes "null");
  show = λ v. [];
  unmarshal = λ s. some (float_value 3);
  unmarshal_list = λ s. ([], false);
  decode_map = λ s. some fields;
  encode_map = λ f. none;
}

get-decode_example :
    (env' : Env) × (decode json (codes "{}") [] ≡ some env')
    × ((key : Str) → get key env' ≡ last_text json key fields (get key []))
unfolding contains_byte
get-decode_example = get-decode json (codes "{}") fields [] refl (refl, (refl, tt))

encoded_fields-converted_example :
    parts_of_fields [] (encoded_fields json ((codes "Size", codes "3") ∷ []))
    ≡ map
        (converted json)
        (parts_of_fields [] (decoded_fields json ((codes "Size", codes "3") ∷ [])))
encoded_fields-converted_example = encoded_fields-converted json ((codes "Size", codes "3") ∷ []) []

abbrev engine : Engine
engine = new_engine 7 []

abbrev world : World
world = record {
  call = λ h job eng. record {
    status = pos 0;
    error_text = [];
    env = job.env;
    args = job.args;
    engine = eng;
  };
  close_stdout = none;
  close_stderr = none;
  close_stdin = none;
}

abbrev echo : Job
echo = record {
  name = codes "echo";
  args = [];
  env = [];
  handler = some 3;
  status = pos 0;
  ended = false;
}

abbrev idle_engine : Engine
idle_engine = record {
  handlers = (codes "echo", 3) ∷ [];
  catchall = none;
  logging = true;
  tasks = 0;
  shutdown = false;
  on_shutdown = [];
}

run_succeeds_iff_example : ((run world echo idle_engine).error ≡ none) ↔ (
    (idle_engine.shutdown ≡ false)
    × (echo.ended ≡ false)
    × ((h : ℕ) × (echo.handler ≡ some h)
        × ((world.call h echo (begin_task echo idle_engine)).status ≡ pos 0))
    × Closes world)
run_succeeds_iff_example = run_succeeds_iff world echo idle_engine

run_once_example :
    ((run world (run world echo idle_engine).job idle_engine).error ≢ none)
    × ((run world (run world echo idle_engine).job idle_engine).job
        ≡ (run world echo idle_engine).job)
    × ((run world (run world echo idle_engine).job idle_engine).engine ≡ idle_engine)
run_once_example = run_once world world echo idle_engine idle_engine 3 refl refl

abbrev at_phase : Phase → Thread
at_phase p = record { serve_api = false; phase = p }

-- A job at work and one that has not begun.
abbrev busy : System
busy = record {
  shutdown = false;
  tasks = 1;
  threads = at_phase working ∷ at_phase called ∷ [];
  waiter = none;
}

abbrev ending : List Event
ending = job_step 1 ∷ idle ∷ job_step 0 ∷ idle ∷ []

run_events-Counts_example : (run_events ending busy).tasks ≡ active (run_events ending busy).threads
run_events-Counts_example = run_events-Counts ending busy refl

refused_after_shutdown_example :
    (phase_at 1 (run_events ending (step call_shutdown busy)).threads ≡ some called)
    ⊎ (phase_at 1 (run_events ending (step call_shutdown busy)).threads ≡ some refused)
refused_after_shutdown_example = refused_after_shutdown ending 1 busy refl

idle_at_handlers_example : active (run_events ending (step call_shutdown busy)).threads ≡ 0
unfolding run_events step docker_analysis.Engine.Shutdown.step_at
    docker_analysis.Engine.Shutdown.step_thread docker_analysis.Engine.Shutdown.shut_down
    docker_analysis.Engine.Shutdown.stop_waiting
idle_at_handlers_example = idle_at_handlers ending busy refl refl refl refl refl

abbrev late_system : System
late_system = record {
  shutdown = false;
  tasks = 0;
  threads = record { serve_api = true; phase = working } ∷ at_phase admitted ∷ [];
  waiter = none;
}

works_after_shutdown_example :
    ((run_events (call_shutdown ∷ idle ∷ job_step 1 ∷ job_step 1 ∷ []) late_system).waiter
      ≡ some handlers_called)
    × (phase_at 1
          (run_events (call_shutdown ∷ idle ∷ job_step 1 ∷ job_step 1 ∷ []) late_system).threads
        ≡ some working)
works_after_shutdown_example = works_after_shutdown 1 late_system refl refl refl
