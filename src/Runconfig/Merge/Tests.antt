-- ===== src/Runconfig/Merge/Tests.antt =====
-- A merge of two environments that both define a name.
use docker_analysis.Base.{◌≡◌, List, [], ◌∷◌, if◌then◌else◌, Str, codes}
use docker_analysis.Runconfig.Merge.{merge_env, defines}
use docker_analysis.Runconfig.Merge.Laws.{find_env, find_env-merge_env}

abbrev user_env : List Str
user_env = codes "PATH=/bin" ∷ []

abbrev image_env : List Str
image_env = codes "PATH=/usr/bin" ∷ codes "HOME=/" ∷ []

find_env-merge_env_example : find_env (codes "HOME") (merge_env user_env image_env) ≡ (
    if defines (codes "HOME") user_env
    then find_env (codes "HOME") user_env
    else find_env (codes "HOME") image_env)
find_env-merge_env_example = find_env-merge_env (codes "HOME") user_env image_env
