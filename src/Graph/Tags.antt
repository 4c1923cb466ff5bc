-- ===== src/Graph/Tags.antt =====
-- graph/tags.go: the tag store. The file that it keeps is `disk`: the repositories that its JSON
-- text holds, or `none` where the file cannot be read. A channel is a number.
mod Tests
pub mod Laws
pub mod Set
pub mod Pool
use docker_analysis.Base.{
  ℕ, suc, ◌≡◌, Bool, true, false, ◌&&◌, ◌||◌, not, List, [], ◌∷◌, ◌++◌, Option, none, some,
  is_empty, if◌then◌else◌, ◌==◌, str_eq, Str, codes,
}
use docker_analysis.Base.Dict.{lookup, insert, delete}
use docker_analysis.Base.Text.{contains_byte, has_prefix}
use docker_analysis.Parsers.{parse_repository_tag}

abbrev pub default_tag : Str
default_tag = codes "latest"

-- From a tag to an image's identifier.
abbrev pub Repository : Type 0
Repository = List (Str × Str)

abbrev pub Repositories : Type 0
Repositories = List (Str × Repository)

pub record TagStore : Type 0 where
  pub repositories : Repositories
  pub disk : Option Repositories
  pub pulling_pool : List (Str × ℕ)
  pub pushing_pool : List (Str × ℕ)
  pub next_channel : ℕ
  pub closed : List ℕ

pub data TagError : Type 0 where
  no_such_image no_such_tag no_such_repository empty_name empty_tag illegal_tag conflict : TagError
  unreadable unwritable unknown_pool pull_in_progress push_in_progress : TagError

-- `err` is `none` for nil.
pub record Done (A : Type 0) : Type 0 where
  pub error : Option TagError
  pub result : A
  pub store : TagStore

-- The image store that the tags refer to: an image's identifier for a name. `writable` tells
-- whether the file can be written.
pub record Env : Type 0 where
  pub graph_get : Str → Option Str
  pub writable : Bool

unfoldable pub save : Env → TagStore → Option TagError × TagStore
save env s =
    if env.writable then (none, record s { disk = some s.repositories }) else (some unwritable, s)

-- JSON decoding into a map keeps the keys that the text does not have.
unfoldable pub decode_into : Repositories → Repositories → Repositories
decode_into [] old = old
decode_into ((name, repo) ∷ rest) old = insert name repo (decode_into rest old)

unfoldable pub reload : TagStore → Option TagError × TagStore
unfolding decode_into
reload s = elim s.disk [
  | none ↦ (some unreadable, s)
  | some d ↦ (none, record s { repositories = decode_into d s.repositories })
]

unfoldable pub validate_repo_name : Str → Option TagError
validate_repo_name name = if is_empty name then some empty_name else none

unfoldable pub validate_tag_name : Str → Option TagError
validate_tag_name name =
    if is_empty name
    then some empty_tag
    else if contains_byte b'/' name || contains_byte b':' name
    then some illegal_tag
    else none

-- `Get`: a repository that is not there is nil, which is no error.
unfoldable pub get : Str → TagStore → Done (Option Repository)
unfolding reload
get repo_name s =
    let (e, s') = reload s in
    elim e [
      | some err ↦ record { error = some err; result = none; store = s' }
      | none ↦ record { error = none; result = lookup repo_name s'.repositories; store = s' }
    ]

-- The loop over the images of a repository, in the order in which the map gives them.
unfoldable pub by_prefix : Str → Repository → Option Str
by_prefix start [] = none
by_prefix start ((tag, revision) ∷ rest) =
    let later = by_prefix start rest in if has_prefix start revision then some revision else later

unfoldable pub graph_image : Env → Str → TagStore → Done (Option Str)
graph_image env name s = elim (env.graph_get name) [
  | none ↦ record { error = some no_such_image; result = none; store = s }
  | some id ↦ record { error = none; result = some id; store = s }
]

unfoldable pub image_in : Env → Repository → Str → TagStore → Done (Option Str)
unfolding graph_image by_prefix
image_in env repo tag_or_id s = elim (lookup tag_or_id repo) [
  | some revision ↦ graph_image env revision s
  | none ↦ elim (by_prefix tag_or_id repo) [
    | some revision ↦ graph_image env revision s
    | none ↦ record { error = none; result = none; store = s }
  ]
]

unfoldable pub get_image : Env → Str → Str → TagStore → Done (Option Str)
unfolding get image_in
get_image env repo_name tag_or_id s =
    let d = get repo_name s in
    elim d.error [
      | some e ↦ record { error = some e; result = none; store = d.store }
      | none ↦ elim d.result [
        | none ↦ record { error = none; result = none; store = d.store }
        | some repo ↦ image_in env repo tag_or_id d.store
      ]
    ]

abbrev pub tag_or_default : Str → Str
tag_or_default tag = if is_empty tag then default_tag else tag

unfoldable pub lookup_image : Env → Str → TagStore → Done (Option Str)
unfolding get_image graph_image
lookup_image env name s =
    let (repos, tag) = parse_repository_tag name in
    let d = get_image env repos (tag_or_default tag) s in
    elim d.error [
      | some e ↦ record { error = some e; result = none; store = d.store }
      | none ↦ elim d.result [ some img ↦ d | none ↦ graph_image env name d.store ]
    ]

abbrev pub failed : TagError → TagStore → Done Unit
failed e s = record { error = some e; result = tt; store = s }

abbrev pub saved : Env → TagStore → Done Unit
unfolding save
saved env s = let (e, s') = save env s in record { error = e; result = tt; store = s' }

-- The test of `Set` for a tag that is set already, with the error's value.
abbrev pub conflicts : Bool → Option Repository → Bool
conflicts force none = false
conflicts force (some old) = not force

-- The last part of `Set`, on the reloaded store.
unfoldable pub put_tag : Env → Str → Str → Str → Bool → TagStore → Done Unit
unfolding save
put_tag env repo_name tag id force s = elim (lookup repo_name s.repositories) [
  | some repo ↦
      saved env (record s { repositories = insert repo_name (insert tag id repo) s.repositories })
  | none ↦
      if conflicts force (lookup repo_name s.repositories)
      then failed conflict s
      else saved env
          (record s { repositories = insert repo_name (insert tag id []) s.repositories })
]

unfoldable pub set_reloaded : Env → Str → Str → Str → Bool → TagStore → Done Unit
unfolding reload put_tag
set_reloaded env repo_name tag id force s =
    let (e, s') = reload s in
    elim e [ some err ↦ failed err s' | none ↦ put_tag env repo_name tag id force s' ]

unfoldable pub set : Env → Str → Str → Str → Bool → TagStore → Done Unit
unfolding lookup_image set_reloaded validate_repo_name validate_tag_name
set env repo_name tag image_name force s =
    let d = lookup_image env image_name s in
    elim d.error [
      | some e ↦ failed e d.store
      | none ↦ elim (validate_repo_name repo_name) [
        | some e ↦ failed e d.store
        | none ↦ elim (validate_tag_name (tag_or_default tag)) [
          | some e ↦ failed e d.store
          | none ↦ elim d.result [
            | none ↦ failed no_such_image d.store
            | some id ↦ set_reloaded env repo_name (tag_or_default tag) id force d.store
          ]
        ]
      ]
    ]

abbrev pub deleted : Env → TagStore → Done Bool
unfolding save
deleted env s = let (e, s') = save env s in record { error = e; result = true; store = s' }

abbrev pub not_deleted : TagError → TagStore → Done Bool
not_deleted e s = record { error = some e; result = false; store = s }

-- The repository goes with its last tag.
unfoldable pub left_over : Str → Repository → Repositories → Repositories
left_over repo_name rest rs =
    if is_empty rest then delete repo_name rs else insert repo_name rest rs

unfoldable pub delete_tag : Env → Str → Str → Repository → TagStore → Done Bool
unfolding save left_over
delete_tag env repo_name tag repo s = elim (lookup tag repo) [
  | none ↦ not_deleted no_such_tag s
  | some _ ↦
      deleted env (record s { repositories = left_over repo_name (delete tag repo) s.repositories })
]

unfoldable pub delete_image : Env → Str → Str → TagStore → Done Bool
unfolding reload delete_tag
delete_image env repo_name tag s =
    let (e, s') = reload s in
    elim e [
      | some err ↦ not_deleted err s'
      | none ↦ elim (lookup repo_name s'.repositories) [
        | none ↦ not_deleted no_such_repository s'
        | some repo ↦
            if is_empty tag
            then deleted env (record s' { repositories = delete repo_name s'.repositories })
            else delete_tag env repo_name tag repo s'
      ]
    ]
