-- ===== src/TruncIndex.antt =====
-- pkg/truncindex/truncindex.go: identifiers that are found by a prefix. The trie is a package of
-- others: its operations are arguments, and what they do is a hypothesis of the theorems.
mod Tests
pub mod Laws
use docker_analysis.Base.{
  ℕ, ◌≡◌, Bool, true, false, List, [], ◌∷◌, ◌++◌, Option, none, some, if◌then◌else◌, ◌==◌, str_eq,
  Str, codes, is_empty,
}
use docker_analysis.Base.Keys.{contains, add, remove}
use docker_analysis.Base.Text.{contains_byte}

-- `below` are the keys that `VisitSubtree` visits, in its order; `none` is its own error.
pub record Trie (T : Type 0) : Type 0 where
  pub new_trie : T
  pub insert_key : Str → T → Bool × T
  pub delete_key : Str → T → Bool × T
  pub below : Str → T → Option (List Str)

pub data IndexError : Type 0 where
  illegal_character no_id already_exists not_inserted no_such_id : IndexError

pub record TruncIndex (T : Type 0) : Type 0 where
  pub trie : T
  pub ids : List Str

module _ {T : Type 0} (lib : Trie T) where
  abbrev pub with_trie : TruncIndex T → Bool × T → IndexError → Option IndexError × TruncIndex T
  with_trie idx (true, t) e = (none, record idx { trie = t })
  with_trie idx (false, t) e = (some e, record idx { trie = t })

  -- `addId`, and `Add` under the lock: the error and the index.
  unfoldable pub add_id : Str → TruncIndex T → Option IndexError × TruncIndex T
  unfolding contains add contains_byte
  add_id id idx =
      if contains_byte b' ' id
      then (some illegal_character, idx)
      else if is_empty id
      then (some no_id, idx)
      else if contains idx.ids id
      then (some already_exists, idx)
      else with_trie (record idx { ids = add id idx.ids }) (lib.insert_key id idx.trie) not_inserted

  -- `NewTruncIndex`, which ignores the errors.
  unfoldable pub add_ids : List Str → TruncIndex T → TruncIndex T
  unfolding add_id
  add_ids [] idx = idx
  add_ids (id ∷ ids) idx = add_ids ids (add_id id idx).1

  unfoldable pub new_trunc_index : List Str → TruncIndex T
  unfolding add_ids
  new_trunc_index ids = add_ids ids (record { trie = lib.new_trie; ids = [] })

  unfoldable pub delete_id : Str → TruncIndex T → Option IndexError × TruncIndex T
  unfolding contains remove
  delete_id id idx =
      if contains idx.ids id
      then (if is_empty id
          then (some no_such_id, idx)
          else with_trie (record idx { ids = remove id idx.ids }) (lib.delete_key id idx.trie)
              no_such_id)
      else (some no_such_id, idx)

  -- The visits: the second key makes the visitor fail, and with it `VisitSubtree`.
  abbrev pub only_one : Option (List Str) → Option Str
  only_one none = none
  only_one (some []) = none
  only_one (some (id ∷ [])) = if is_empty id then none else some id
  only_one (some (id ∷ other ∷ ids)) = none

  -- The identifier with the prefix, or `none` for an error.
  unfoldable pub find : Str → TruncIndex T → Option Str
  find s idx = if is_empty s then none else only_one (lib.below s idx.trie)
