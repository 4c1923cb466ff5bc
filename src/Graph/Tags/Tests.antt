-- ===== src/Graph/Tags/Tests.antt =====
-- The tag store's theorems on a store of one repository.
use docker_analysis.Base.{
  ℕ, suc, ◌≡◌, ◌≢◌, ◌↔◌, Bool, true, false, ◌&&◌, List, [], ◌∷◌, Option, none, some, refl,
  if◌then◌else◌, ◌==◌, str_eq, Str, codes,
}
use docker_analysis.Base.Dict.{lookup, insert}
use docker_analysis.Graph.Tags.{TagStore, Env, Repository, delete_tag}
use docker_analysis.Graph.Tags.{
  set, lookup_image, get_image, image_in, get, validate_repo_name, validate_tag_name,
  tag_or_default,
}
use docker_analysis.Graph.Tags.Set.{tagged-set}
use docker_analysis.Graph.Tags.Laws.{tagged, tagged-delete_tag, NoOther}
use docker_analysis.Graph.Tags.Pool.{pool_new, pool_add, pool_add_twice}

abbrev ubuntu : Repository
ubuntu = (codes "latest", codes "c4ff7513909d") ∷ []

abbrev store : TagStore
store = record {
  repositories = (codes "ubuntu", ubuntu) ∷ [];
  disk = some ((codes "ubuntu", ubuntu) ∷ []);
  pulling_pool = [];
  pushing_pool = [];
  next_channel = 7;
  closed = [];
}

abbrev env : Env
env = record { graph_get = λ name. some name; writable = true }

tagged-delete_tag_example :
    ((name other : Str)
      → tagged name other (delete_tag env (codes "ubuntu") (codes "latest") ubuntu store).store ≡ (
          if (codes "ubuntu" == name) && (codes "latest" == other)
          then none
          else tagged name other store))
    × ((lookup
            (codes "ubuntu")
            (delete_tag env (codes "ubuntu") (codes "latest") ubuntu store).store.repositories
          ≡ none)
        ↔ NoOther (codes "latest") ubuntu)
unfolding lookup docker_analysis.Base.str_beq
tagged-delete_tag_example =
    tagged-delete_tag env (codes "ubuntu") (codes "latest") (codes "c4ff7513909d") ubuntu store refl
      refl

pool_add_twice_example :
    ((pool_add (codes "pull") (codes "ubuntu") store).result ≡ some 7)
    × ((pool_add
          (codes "push")
          (codes "ubuntu")
          (pool_add (codes "pull") (codes "ubuntu") store).store).error
        ≢ none)
    × ((pool_add
          (codes "push")
          (codes "ubuntu")
          (pool_add (codes "pull") (codes "ubuntu") store).store).result
        ≡ some 7)
    × ((pool_add
          (codes "push")
          (codes "ubuntu")
          (pool_add (codes "pull") (codes "ubuntu") store).store).store
        ≡ (pool_add (codes "pull") (codes "ubuntu") store).store)
unfolding pool_add pool_new lookup insert docker_analysis.Base.str_beq
pool_add_twice_example = pool_add_twice (codes "pull") (codes "push") (codes "ubuntu") store refl

abbrev pulling : TagStore
pulling = record store { pulling_pool = (codes "ubuntu", 7) ∷ []; next_channel = 8 }

-- The tag is another image's before.
tagged-set_example :
    ((set env (codes "ubuntu") [] (codes "debian") false store).error ≡ none)
    × (tagged
          (codes "ubuntu")
          (tag_or_default [])
          (set env (codes "ubuntu") [] (codes "debian") false store).store
        ≡ some (codes "debian"))
    × ((set env (codes "ubuntu") [] (codes "debian") false store).store.disk
        ≡ some (set env (codes "ubuntu") [] (codes "debian") false store).store.repositories)
unfolding lookup_image get_image image_in get validate_repo_name validate_tag_name lookup insert
    docker_analysis.Base.str_beq docker_analysis.Parsers.parse_repository_tag
    docker_analysis.Base.Text.cut_last docker_analysis.Base.Text.contains_byte
tagged-set_example =
    tagged-set env (codes "ubuntu") [] (codes "debian") (codes "debian") false store store
      ((codes "ubuntu", ubuntu) ∷ []) refl refl refl refl refl
