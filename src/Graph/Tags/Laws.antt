-- ===== src/Graph/Tags/Laws.antt =====
-- What the tag store holds after its operations.
use docker_analysis.Base.{
  ◌≡◌, ◌≢◌, ◌↔◌, Bool, true, false, eq_refl, ◌&&◌, [], ◌∷◌, Option, none, some, if◌then◌else◌, ◌==◌,
  str_eq, Str, arith, refl, inl, inr, Option-cases, Bool-cases, ap, ◌∙◌, str_beq_iff, sym,
}
use docker_analysis.Base.Dict.{lookup, insert, delete, lookup-insert, lookup-delete}
use docker_analysis.Graph.Tags.{
  TagStore, Env, Repositories, Repository, save, put_tag, delete_tag, reload, set_reloaded,
  conflict, saved, left_over, deleted, not_deleted, no_such_tag,
}

-- The identifier of a tag.
unfoldable pub id_in : Str → Option Repository → Option Str
id_in tag none = none
id_in tag (some repo) = lookup tag repo

abbrev pub tagged : Str → Str → TagStore → Option Str
tagged name tag s = id_in tag (lookup name s.repositories)

unfoldable repository_or_new : Option Repository → Repository
repository_or_new none = []
repository_or_new (some repo) = repo

lookup-repository_or_new :
    (o : Option Repository) (t : Str) → lookup t (repository_or_new o) ≡ id_in t o
unfolding repository_or_new id_in lookup
lookup-repository_or_new none t = refl
lookup-repository_or_new (some repo) t = refl

repositories-saved : (env : Env) (s : TagStore) → (saved env s).store.repositories ≡ s.repositories
unfolding save
repositories-saved env s = elim (Bool-cases env.writable) [
  | inl w ↦ rw (w) refl
  | inr w ↦ rw (w) refl
]

id_in-insert :
    (repo tag id name other : Str) (old : Repository) (rs : Repositories)
    → ((t : Str) → lookup t old ≡ id_in t (lookup repo rs))
    → id_in other (lookup name (insert repo (insert tag id old) rs))
      ≡ (if (repo == name) && (tag == other) then some id else id_in other (lookup name rs))
unfolding id_in
id_in-insert repo tag id name other old rs same =
    ap (id_in other) (lookup-insert repo name (insert tag id old) rs)
    ∙ (elim (Bool-cases (repo == name)) [
      | inl here ↦
          let e : repo ≡ name = (str_beq_iff repo name).0 here in
          let back : lookup other old ≡ id_in other (lookup name rs) =
            same other ∙ ap (λ n. id_in other (lookup n rs)) e in
          rw (here, lookup-insert tag other id old, back) refl
      | inr elsewhere ↦ rw elsewhere refl
    ])

repositories-put_tag :
    (env : Env) (repo tag id : Str) (force : Bool) (s : TagStore)
    → (put_tag env repo tag id force s).store.repositories
      ≡ insert repo (insert tag id (repository_or_new (lookup repo s.repositories))) s.repositories
unfolding repository_or_new put_tag
repositories-put_tag env repo tag id force s = elim (Option-cases (lookup repo s.repositories)) [
  | inl e ↦
      rw (put_tag, e, e)
        (repositories-saved env
          (record s { repositories = insert repo (insert tag id []) s.repositories }))
  | inr (r, e) ↦
      rw (put_tag, e)
        (repositories-saved env
          (record s { repositories = insert repo (insert tag id r) s.repositories }))
]

-- The last part of `Set` gives the tag its image, whether the repository is new or not, and
-- every other tag of every repository keeps its own.
pub tagged-put_tag :
    (env : Env) (repo tag id name other : Str) (force : Bool) (s : TagStore)
    → tagged name other (put_tag env repo tag id force s).store
      ≡ (if (repo == name) && (tag == other) then some id else tagged name other s)
tagged-put_tag env repo tag id name other force s =
    ap (λ rs. id_in other (lookup name rs)) (repositories-put_tag env repo tag id force s)
    ∙ id_in-insert repo tag id name other (repository_or_new (lookup repo s.repositories))
        s.repositories (lookup-repository_or_new (lookup repo s.repositories))

saved_no_conflict : (env : Env) (s : TagStore) → (saved env s).error ≢ some conflict
unfolding save
saved_no_conflict env s = elim (Bool-cases env.writable) [
  | inl w ↦ rw w (λ h. absurd (ground arith))
  | inr w ↦ rw w (λ h. absurd (ground arith))
]

put_tag_no_conflict :
    (env : Env) (repo tag id : Str) (force : Bool) (s : TagStore)
    → (put_tag env repo tag id force s).error ≢ some conflict
unfolding put_tag
put_tag_no_conflict env repo tag id force s = elim (Option-cases (lookup repo s.repositories)) [
  | inl e ↦
      rw (put_tag, e, e)
        (saved_no_conflict env
          (record s { repositories = insert repo (insert tag id []) s.repositories }))
  | inr (r, e) ↦
      rw (put_tag, e)
        (saved_no_conflict env
          (record s { repositories = insert repo (insert tag id r) s.repositories }))
]

reload_no_conflict : (s : TagStore) → (reload s).0 ≢ some conflict
unfolding reload
reload_no_conflict s = elim (Option-cases s.disk) [
  | inl e ↦ rw (reload, e) (λ h. absurd (ground arith))
  | inr (d, e) ↦ rw (reload, e) (λ h. absurd (ground arith))
]

-- From the reload on, `Set` never reports a conflict, with or without `force`, whether or not
-- the tag is set already.
pub set_reloaded_no_conflict :
    (env : Env) (repo tag id : Str) (force : Bool) (s : TagStore)
    → (set_reloaded env repo tag id force s).error ≢ some conflict
unfolding set_reloaded reload
set_reloaded_no_conflict env repo tag id force s = elim (Option-cases (reload s).0) [
  | inl e ↦ rw (set_reloaded, e) (put_tag_no_conflict env repo tag id force (reload s).1)
  | inr (err, e) ↦ rw (set_reloaded, e) (λ h. absurd (reload_no_conflict s (e ∙ h)))
]

lookup-left_over :
    (repo name other : Str) (rest : Repository) (rs : Repositories)
    → id_in other (lookup name (left_over repo rest rs))
      ≡ (if repo == name then lookup other rest else id_in other (lookup name rs))
unfolding left_over id_in lookup
lookup-left_over repo name other [] rs =
    ap (id_in other) (lookup-delete repo name rs)
    ∙ (elim (Bool-cases (repo == name)) [ inl e ↦ rw e refl | inr e ↦ rw e refl ])
lookup-left_over repo name other (x ∷ rest) rs =
    ap (id_in other) (lookup-insert repo name (x ∷ rest) rs)
    ∙ (elim (Bool-cases (repo == name)) [ inl e ↦ rw e refl | inr e ↦ rw e refl ])

repositories-deleted :
    (env : Env) (s : TagStore) → (deleted env s).store.repositories ≡ s.repositories
unfolding save
repositories-deleted env s = elim (Bool-cases env.writable) [
  | inl w ↦ rw (w) refl
  | inr w ↦ rw (w) refl
]

own_id :
    (repo name other : Str) (r : Repository) (rs : Repositories)
    → lookup repo rs ≡ some r
    → (repo == name) ≡ true
    → id_in other (lookup name rs) ≡ lookup other r
unfolding id_in
own_id repo name other r rs h here =
    ap (λ n. id_in other (lookup n rs)) (sym ((str_beq_iff repo name).0 here)) ∙ ap (id_in other) h

deleted_id :
    (repo tag name other : Str) (r : Repository) (rs : Repositories)
    → lookup repo rs ≡ some r
    → (if repo == name then lookup other (delete tag r) else id_in other (lookup name rs))
      ≡ (if (repo == name) && (tag == other) then none else id_in other (lookup name rs))
deleted_id repo tag name other r rs h = elim (Bool-cases (repo == name)) [
  | inl here ↦ rw (here, lookup-delete tag other r, own_id repo name other r rs h here) refl
  | inr elsewhere ↦ rw elsewhere refl
]

-- No tag but this one is in the repository.
abbrev pub NoOther : Str → Repository → Type 0
NoOther tag r = (t : Str) → (tag == t) ≡ false → lookup t r ≡ none

abbrev no_tags : Repository
no_tags = []

no_tag : (t : Str) → lookup t no_tags ≡ none
unfolding lookup
no_tag t = refl

delete-nil : (tag : Str) (r : Repository) → delete tag r ≡ [] → NoOther tag r
delete-nil tag r h t other =
    ap (λ b. if b then none else lookup t r) (sym other)
    ∙ sym (lookup-delete tag t r)
    ∙ ap (lookup t) h
    ∙ no_tag t

delete-cons :
    (tag t id : Str) (r rest : Repository) → delete tag r ≡ (t, id) ∷ rest → NoOther tag r → ⊥
unfolding lookup
delete-cons tag t id r rest h alone =
    let there : lookup t (delete tag r) ≡ some id =
      ap (lookup t) h ∙ ap (λ b. if b then some id else lookup t rest) (eq_refl t) in
    let after = sym (lookup-delete tag t r) ∙ there in
    elim (Bool-cases (tag == t)) [
      | inl same ↦ ground (arith, same, after)
      | inr other ↦ let gone = alone t other in ground (arith, other, after)
    ]

lookup-left_over-none :
    (repo tag : Str) (r : Repository) (rs : Repositories)
    → (lookup repo (left_over repo (delete tag r) rs) ≡ none) ↔ NoOther tag r
unfolding left_over
lookup-left_over-none repo tag r rs = go (delete tag r) refl
  where
    go :
        (rest : Repository)
        → delete tag r ≡ rest
        → (lookup repo (left_over repo rest rs) ≡ none) ↔ NoOther tag r
    go [] e =
        (λ h. delete-nil tag r e, λ h. lookup-delete repo repo rs ∙ ground (arith, eq_refl repo))
    go ((t, id) ∷ rest) e = (
      λ h.
          let there = lookup-insert repo repo ((t, id) ∷ rest) rs in
          absurd (ground (arith, h, there, eq_refl repo)),
      λ h. absurd (delete-cons tag t id r rest e h),
    )

-- Deleting a tag that a repository has removes that tag and no other, of any repository; and the
-- repository is gone afterwards exactly if it had no other tag.
pub tagged-delete_tag :
    (env : Env) (repo tag id : Str) (r : Repository) (s : TagStore)
    → lookup repo s.repositories ≡ some r
    → lookup tag r ≡ some id
    → ((name other : Str)
        → tagged name other (delete_tag env repo tag r s).store
          ≡ (if (repo == name) && (tag == other) then none else tagged name other s))
      × ((lookup repo (delete_tag env repo tag r s).store.repositories ≡ none) ↔ NoOther tag r)
unfolding delete_tag
tagged-delete_tag env repo tag id r s h e =
    let s' = record s { repositories = left_over repo (delete tag r) s.repositories } in
    let after : (delete_tag env repo tag r s).store.repositories ≡ s'.repositories =
      rw (delete_tag, e) (repositories-deleted env s') in
    (
      λ name other.
          ap (λ rs. id_in other (lookup name rs)) after
          ∙ lookup-left_over repo name other (delete tag r) s.repositories
          ∙ deleted_id repo tag name other r s.repositories h,
      rw after (lookup-left_over-none repo tag r s.repositories),
    )

-- Deleting a tag that the repository does not have is an error, and changes nothing.
delete_tag-missing :
    (env : Env) (repo tag : Str) (r : Repository) (s : TagStore)
    → lookup tag r ≡ none
    → delete_tag env repo tag r s ≡ not_deleted no_such_tag s
unfolding delete_tag
delete_tag-missing env repo tag r s e = rw (delete_tag, e) refl
