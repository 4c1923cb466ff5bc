-- ===== src/TruncIndex/Tests.antt =====
-- The theorems on the index with a trie that is a list of keys.
use docker_analysis.Base.{
  ℕ, ◌≡◌, ◌≢◌, ◌↔◌, Bool, true, false, ◌&&◌, ◌||◌, List, [], ◌∷◌, ◌++◌, Option, none, some,
  if◌then◌else◌, ◌==◌, str_eq, Str, codes, is_empty, not, arith, refl, ap, ◌∙◌, sym, Bool-cases,
  inl, inr, eq_refl,
}
use docker_analysis.Base.Keys.{contains, add, remove, contains-add, contains-remove}
use docker_analysis.Base.Text.{has_prefix}
use docker_analysis.TruncIndex.{Trie, TruncIndex, find}
use docker_analysis.TruncIndex.Laws.{Holds, Agrees, DistinctKeys, find_iff}

unfoldable keys_below : Str → List Str → List Str
unfolding contains
keys_below s [] = []
keys_below s (k ∷ ks) =
    let rest = keys_below s ks in if has_prefix s k && not (contains rest k) then k ∷ rest else rest

contains-keys_below :
    (s : Str) (ks : List Str) (k : Str)
    → contains (keys_below s ks) k ≡ (has_prefix s k && contains ks k)
unfolding keys_below contains
contains-keys_below s [] k = ground arith
contains-keys_below s (x ∷ ks) k = elim (Bool-cases (x == k)) [
  | inl e ↦
      let same : x ≡ k = (str_eq.beq_iff x k).0 e in
      ground (
        arith,
        e,
        contains-keys_below s ks k,
        ap (has_prefix s) same,
        ap (contains (keys_below s ks)) same,
      )
  | inr e ↦ ground (arith, e, contains-keys_below s ks k)
]

DistinctKeys-keys_below : (s : Str) (ks : List Str) → DistinctKeys (keys_below s ks)
unfolding keys_below
DistinctKeys-keys_below s [] = tt
DistinctKeys-keys_below s (k ∷ ks) =
    elim (Bool-cases (has_prefix s k && not (contains (keys_below s ks) k))) [
      | inl e ↦ rw (keys_below, e) (ground (arith, e), DistinctKeys-keys_below s ks)
      | inr e ↦ rw (keys_below, e) (DistinctKeys-keys_below s ks)
    ]

abbrev list_trie : Trie (List Str)
unfolding keys_below contains add remove
list_trie = record {
  new_trie = [];
  insert_key = λ k t. (not (contains t k), add k t);
  delete_key = λ k t. (contains t k, remove k t);
  below = λ s t. some (keys_below s t);
}

list_trie-Holds : Holds list_trie
unfolding list_trie
list_trie-Holds = record {
  has = λ k t. contains t k;
  inserted = λ k t h. ground (arith, h);
  has_inserted = λ k j t. contains-add k j t;
  deleted = λ k t h. h;
  has_deleted = λ k j t. contains-remove k j t;
  visits = λ s t. (DistinctKeys-keys_below s t, contains-keys_below s t);
}

abbrev two_ids : TruncIndex (List Str)
two_ids = record { trie = codes "4ca" ∷ codes "4fe" ∷ []; ids = codes "4ca" ∷ codes "4fe" ∷ [] }

two_ids-Agrees : Agrees list_trie list_trie-Holds two_ids
unfolding list_trie-Holds contains docker_analysis.Base.str_beq
two_ids-Agrees = record { same = λ k. refl; no_empty = refl }

find_iff_example : (find list_trie (codes "4c") two_ids ≡ some (codes "4ca")) ↔ (
    (is_empty (codes "4c") ≡ false)
    × (has_prefix (codes "4c") (codes "4ca") ≡ true)
    × (contains two_ids.ids (codes "4ca") ≡ true)
    × ((k : Str)
        → has_prefix (codes "4c") k ≡ true
        → contains two_ids.ids k ≡ true
        → k ≡ codes "4ca"))
find_iff_example =
    find_iff list_trie list_trie-Holds (codes "4c") (codes "4ca") two_ids two_ids-Agrees
