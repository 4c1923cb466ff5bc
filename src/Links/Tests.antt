-- ===== src/Links/Tests.antt =====
-- The variables of a link to a database.
use docker_analysis.Base.{◌≡◌, true, List, [], ◌∷◌, some, Str, codes, refl}
use docker_analysis.Links.{Link, new_link, to_env}

abbrev db : Link
db =
    new_link (codes "172.17.0.2") (codes "172.17.0.3") (codes "/web/my-db") (codes "A=1" ∷ [])
      (codes "5432/tcp" ∷ [])

abbrev variables : List Str
variables =
    codes "MY_DB_PORT=tcp://172.17.0.3:5432"
    ∷ codes "MY_DB_PORT_5432_TCP=tcp://172.17.0.3:5432"
    ∷ codes "MY_DB_PORT_5432_TCP_ADDR=172.17.0.3"
    ∷ codes "MY_DB_PORT_5432_TCP_PORT=5432"
    ∷ codes "MY_DB_PORT_5432_TCP_PROTO=tcp"
    ∷ codes "MY_DB_NAME=/web/my-db"
    ∷ codes "MY_DB_ENV_A=1"
    ∷ []

to_env-db : to_env db ≡ some variables
unfolding to_env docker_analysis.Base.Text.cut_last docker_analysis.Base.Text.split
    docker_analysis.Base.str_beq
to_env-db = refl
