-- ===== src/Runconfig/NetworkMode.antt =====
-- runconfig/hostconfig.go: the network mode of a container.
use docker_analysis.Base.{Bool, false, none, some, ◌==◌, str_eq, Str, codes}
use docker_analysis.Base.Text.{cut}

abbrev pub NetworkMode : Type 0
NetworkMode = Str

unfoldable pub is_host : NetworkMode → Bool
is_host n = n == codes "host"

-- `strings.SplitN(n, ":", 2)` has a second part exactly when there is a colon.
unfoldable pub is_container : NetworkMode → Bool
is_container n = elim (cut b':' n) [ none ↦ false | some (first, _) ↦ first == codes "container" ]
