-- ===== src/Runconfig/Config.antt =====
-- runconfig/config.go. A Go slice or map is a list. Only of `ExposedPorts` does the code ask
-- whether it is nil: there `none` is nil.
use docker_analysis.Base.{Bool, List, Option, Str}
use docker_analysis.Base.Int.{ℤ}

pub record Config : Type 0 where
  pub hostname : Str
  pub domainname : Str
  pub user : Str
  pub memory : ℤ
  pub memory_swap : ℤ
  pub cpu_shares : ℤ
  pub cpuset : Str
  pub attach_stdin : Bool
  pub attach_stdout : Bool
  pub attach_stderr : Bool
  pub port_specs : List Str
  pub exposed_ports : Option (List Str)
  pub tty : Bool
  pub open_stdin : Bool
  pub stdin_once : Bool
  pub env : List Str
  pub cmd : List Str
  pub image : Str
  pub volumes : List Str
  pub working_dir : Str
  pub entrypoint : List Str
  pub network_disabled : Bool
  pub on_build : List Str
