-- ===== src/Graph/Tags/Pool.antt =====
-- graph/tags.go: the pools of the images that are being pulled and pushed.
use docker_analysis.Base.{
  ℕ, suc, ◌≡◌, ◌≢◌, Bool, true, false, ◌||◌, List, [], ◌∷◌, Option, none, some, if◌then◌else◌, ◌==◌,
  str_eq, Str, codes, arith, refl, inl, inr, ◌⊎◌, Option-cases, Bool-cases, eq_refl, ap, ◌∙◌,
}
use docker_analysis.Base.Dict.{lookup, insert, delete, lookup-insert, lookup-delete}
use docker_analysis.Graph.Tags.{
  TagStore, Done, failed, unknown_pool, pull_in_progress, push_in_progress,
}

-- A new channel, in the pool of its kind.
unfoldable pub pool_new : Str → Str → TagStore → Done (Option ℕ)
pool_new kind key s =
    let c = s.next_channel in
    let s' = record s { next_channel = suc s.next_channel } in
    if kind == codes "pull"
    then record {
      error = none;
      result = some c;
      store = record s' { pulling_pool = insert key c s.pulling_pool };
    }
    else if kind == codes "push"
    then record {
      error = none;
      result = some c;
      store = record s' { pushing_pool = insert key c s.pushing_pool };
    }
    else record { error = some unknown_pool; result = none; store = s' }

-- `poolAdd`: the channel and the error.
unfoldable pub pool_add : Str → Str → TagStore → Done (Option ℕ)
unfolding pool_new
pool_add kind key s = elim (lookup key s.pulling_pool) [
  | some c ↦ record { error = some pull_in_progress; result = some c; store = s }
  | none ↦ elim (lookup key s.pushing_pool) [
    | some c ↦ record { error = some push_in_progress; result = some c; store = s }
    | none ↦ pool_new kind key s
  ]
]

unfoldable pub pool_remove : Str → Str → TagStore → Done Unit
pool_remove kind key s =
    if kind == codes "pull"
    then elim (lookup key s.pulling_pool) [
      | none ↦ record { error = none; result = tt; store = s }
      | some c ↦ record {
        error = none;
        result = tt;
        store = record s { pulling_pool = delete key s.pulling_pool; closed = c ∷ s.closed };
      }
    ]
    else if kind == codes "push"
    then elim (lookup key s.pushing_pool) [
      | none ↦ record { error = none; result = tt; store = s }
      | some c ↦ record {
        error = none;
        result = tt;
        store = record s { pushing_pool = delete key s.pushing_pool; closed = c ∷ s.closed };
      }
    ]
    else failed unknown_pool s

some≢none : {A : Type 0} {a : A} → some a ≢ none
some≢none h = absurd (ground arith)

abbrev pub held_by : Str → TagStore → Option ℕ
held_by key s = elim (lookup key s.pulling_pool) [
  | some c ↦ some c
  | none ↦ lookup key s.pushing_pool
]

pool_add_held :
    (kind key : Str) (s : TagStore) (c : ℕ)
    → held_by key s ≡ some c
    → ((pool_add kind key s).error ≢ none)
      × ((pool_add kind key s).result ≡ some c)
      × ((pool_add kind key s).store ≡ s)
unfolding pool_add
pool_add_held kind key s c h = elim (Option-cases (lookup key s.pulling_pool)) [
  | inl e ↦
      let p : lookup key s.pushing_pool ≡ some c = ground arith in
      rw (pool_add, e, p) (some≢none, refl, refl)
  | inr (d, e) ↦ let p : some d ≡ some c = ground arith in rw (pool_add, e) (some≢none, p, refl)
]

lookup_inserted : (key : Str) (c : ℕ) (m : List (Str × ℕ)) → lookup key (insert key c m) ≡ some c
lookup_inserted key c m =
    lookup-insert key key c m ∙ ap (λ b. if b then some c else lookup key m) (eq_refl key)

pulling-held :
    (key : Str) (s : TagStore) (c : ℕ) → lookup key s.pulling_pool ≡ some c → held_by key s ≡ some c
pulling-held key s c h = rw (held_by, h) refl

pushing-held :
    (key : Str) (s : TagStore) (c : ℕ)
    → lookup key s.pulling_pool ≡ none
    → lookup key s.pushing_pool ≡ some c
    → held_by key s ≡ some c
pushing-held key s c h g = rw (held_by, h, g) refl

held_by-pool_new :
    (kind key : Str) (s : TagStore)
    → lookup key s.pulling_pool ≡ none
    → (pool_new kind key s).error ≡ none
    → ((pool_new kind key s).result ≡ some s.next_channel)
      × (held_by key (pool_new kind key s).store ≡ some s.next_channel)
unfolding pool_new
held_by-pool_new kind key s free = elim (Bool-cases (kind == codes "pull")) [
  | inl pull ↦
      rw (pool_new, pull)
        (λ h. (
          refl,
          pulling-held key
              (record s {
                pulling_pool = insert key s.next_channel s.pulling_pool;
                next_channel = suc s.next_channel;
              })
              s.next_channel (lookup_inserted key s.next_channel s.pulling_pool),
        ))
  | inr other ↦ elim (Bool-cases (kind == codes "push")) [
    | inl push ↦
        rw (pool_new, other, push)
          (λ h. (
            refl,
            pushing-held key
                (record s {
                  pushing_pool = insert key s.next_channel s.pushing_pool;
                  next_channel = suc s.next_channel;
                })
                s.next_channel free (lookup_inserted key s.next_channel s.pushing_pool),
          ))
    | inr unknown ↦ rw (pool_new, other, unknown) (λ h. absurd (some≢none h))
  ]
]

held_by-pool_add :
    (kind key : Str) (s : TagStore)
    → (pool_add kind key s).error ≡ none
    → ((pool_add kind key s).result ≡ some s.next_channel)
      × (held_by key (pool_add kind key s).store ≡ some s.next_channel)
unfolding pool_add
held_by-pool_add kind key s = elim (Option-cases (lookup key s.pulling_pool)) [
  | inr (d, e) ↦ rw (pool_add, e) (λ h. absurd (some≢none h))
  | inl e ↦ elim (Option-cases (lookup key s.pushing_pool)) [
    | inr (d, f) ↦ rw (pool_add, e, f) (λ h. absurd (some≢none h))
    | inl f ↦ rw (pool_add, e, f) (held_by-pool_new kind key s e)
  ]
]

-- An image that was added to a pool gets a new channel and cannot be added again, whichever
-- pool is asked for: the caller gets an error and the channel of the one at work, and nothing
-- changes.
pub pool_add_twice :
    (first second key : Str) (s : TagStore)
    → (pool_add first key s).error ≡ none
    → ((pool_add first key s).result ≡ some s.next_channel)
      × ((pool_add second key (pool_add first key s).store).error ≢ none)
      × ((pool_add second key (pool_add first key s).store).result ≡ some s.next_channel)
      × ((pool_add second key (pool_add first key s).store).store ≡ (pool_add first key s).store)
pool_add_twice first second key s fine =
    let (given, held) = held_by-pool_add first key s fine in
    let (fails, same, unchanged) =
      pool_add_held second key (pool_add first key s).store s.next_channel held in
    (given, fails, same, unchanged)

lookup_deleted : (key : Str) (m : List (Str × ℕ)) → lookup key (delete key m) ≡ none
lookup_deleted key m =
    lookup-delete key key m ∙ ap (λ b. if b then none else lookup key m) (eq_refl key)

-- When the pull that holds an image ends, and no push holds it, its channel is closed and the
-- image is free again.
pub pool_remove_pull :
    (key : Str) (c : ℕ) (s : TagStore)
    → lookup key s.pulling_pool ≡ some c
    → lookup key s.pushing_pool ≡ none
    → ((pool_remove (codes "pull") key s).error ≡ none)
      × ((pool_remove (codes "pull") key s).store.closed ≡ c ∷ s.closed)
      × (held_by key (pool_remove (codes "pull") key s).store ≡ none)
unfolding pool_remove docker_analysis.Base.str_beq
pool_remove_pull key c s h free =
    rw (pool_remove, h) (refl, refl, rw (held_by, lookup_deleted key s.pulling_pool, free) refl)
