-- ===== src/Graph/Tags/Set.antt =====
-- The whole of `Set`.
use docker_analysis.Base.{
  ◌≡◌, Bool, true, ◌&&◌, [], none, some, refl, inl, inr, ap, ◌∙◌, if◌then◌else◌, ◌==◌, str_eq, Str,
  Option-cases, eq_refl,
}
use docker_analysis.Base.Dict.{lookup, insert}
use docker_analysis.Graph.Tags.{
  TagStore, Env, save, saved, reload, put_tag, set, set_reloaded, lookup_image, validate_repo_name,
  validate_tag_name, tag_or_default, Repositories,
}
use docker_analysis.Graph.Tags.Laws.{tagged, tagged-put_tag}

saved_writable :
    (env : Env) (s : TagStore)
    → env.writable ≡ true
    → ((saved env s).error ≡ none)
      × ((saved env s).store.disk ≡ some (saved env s).store.repositories)
unfolding save
saved_writable env s w = rw w (refl, refl)

put_tag_writable :
    (env : Env) (repo tag id : Str) (force : Bool) (s : TagStore)
    → env.writable ≡ true
    → ((put_tag env repo tag id force s).error ≡ none)
      × ((put_tag env repo tag id force s).store.disk
          ≡ some (put_tag env repo tag id force s).store.repositories)
unfolding put_tag
put_tag_writable env repo tag id force s w = elim (Option-cases (lookup repo s.repositories)) [
  | inl e ↦
      rw (put_tag, e, e)
        (saved_writable env
          (record s { repositories = insert repo (insert tag id []) s.repositories }) w)
  | inr (r, e) ↦
      rw (put_tag, e)
        (saved_writable env
          (record s { repositories = insert repo (insert tag id r) s.repositories }) w)
]

reload_readable : (s : TagStore) (d : Repositories) → s.disk ≡ some d → (reload s).0 ≡ none
unfolding reload
reload_readable s d h = rw (reload, h) refl

-- `Set` of an image that is found, with proper names, a file that can be read and one that can be
-- written, succeeds, with or without `force`: the tag, or "latest" for an empty one, is the image's, and
-- the file holds what the store holds. Without `force` this is so also for a tag that is another
-- image's, which the documentation of the API calls a conflict.
pub tagged-set :
    (env : Env) (repo tag image id : Str) (force : Bool) (s s' : TagStore) (d : Repositories)
    → lookup_image env image s ≡ record { error = none; result = some id; store = s' }
    → validate_repo_name repo ≡ none
    → validate_tag_name (tag_or_default tag) ≡ none
    → s'.disk ≡ some d
    → env.writable ≡ true
    → ((set env repo tag image force s).error ≡ none)
      × (tagged repo (tag_or_default tag) (set env repo tag image force s).store ≡ some id)
      × ((set env repo tag image force s).store.disk
          ≡ some (set env repo tag image force s).store.repositories)
unfolding set set_reloaded
tagged-set env repo tag image id force s s' d found good_repo good_tag readable writable =
    let name = tag_or_default tag in
    let t = (reload s').1 in
    let reloaded : set_reloaded env repo name id force s' ≡ put_tag env repo name id force t =
      rw (set_reloaded, reload_readable s' d readable) refl in
    let opened : set env repo tag image force s ≡ put_tag env repo name id force t =
      rw (set, found, good_repo, good_tag, found, found) reloaded in
    let (fine, same) = put_tag_writable env repo name id force t writable in
    let put : tagged repo name (put_tag env repo name id force t).store ≡ some id =
      tagged-put_tag env repo name id repo name force t
      ∙ ap (λ b. if b && (name == name) then some id else tagged repo name t) (eq_refl repo)
      ∙ ap (λ b. if b then some id else tagged repo name t) (eq_refl name) in
    rw opened (fine, put, same)
