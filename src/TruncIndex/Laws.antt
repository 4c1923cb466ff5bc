-- ===== src/TruncIndex/Laws.antt =====
-- An identifier is found by exactly those prefixes that no other identifier has.
use docker_analysis.Base.{
  ℕ, ◌≡◌, ◌≢◌, ◌↔◌, Bool, true, false, ◌&&◌, ◌||◌, List, [], ◌∷◌, ◌++◌, Option, none, some,
  if◌then◌else◌, ◌==◌, str_eq, Str, codes, is_empty, not, arith, refl, ap, ◌∙◌, sym, Option-cases,
  Bool-cases, inl, inr, eq_refl,
}
use docker_analysis.Base.Keys.{contains, contains-add}
use docker_analysis.Base.Text.{contains_byte, has_prefix}
use docker_analysis.TruncIndex.{Trie, TruncIndex, with_trie, add_id, only_one, find}

there :
    (ids : List Str) (id k : Str)
    → contains ids id ≡ true
    → (b : Bool) → contains ids k ≡ (((id == k) && b) || contains ids k)
there ids id k g b = elim (Bool-cases (id == k)) [
  | inl e ↦ let same : id ≡ k = (str_eq.beq_iff id k).0 e in ground (arith, ap (contains ids) same)
  | inr e ↦ ground (arith, e)
]

empty_eq : (id : Str) → (id == []) ≡ is_empty id
unfolding docker_analysis.Base.str_beq
empty_eq [] = refl
empty_eq (c ∷ cs) = refl

abbrev pub DistinctKeys : List Str → Type 0
DistinctKeys [] = Unit
DistinctKeys (k ∷ ks) = (contains ks k ≡ false) × DistinctKeys ks

-- The keys that are visited: those of the trie that have the prefix, each one once.
abbrev pub Visits : (Str → Bool) → Option (List Str) → Type 0
Visits has none = (k : Str) → has k ≡ false
Visits has (some ks) = DistinctKeys ks × ((k : Str) → contains ks k ≡ has k)

module _ {T : Type 0} (lib : Trie T) where
  -- The trie holds keys: an insertion and a deletion change that of their key alone, and report that
  -- they did; the keys with a prefix are visited.
  pub record Holds : Type 0 where
    pub has : Str → T → Bool
    pub inserted : (k : Str) (t : T) → has k t ≡ false → (lib.insert_key k t).0 ≡ true
    pub has_inserted : (k j : Str) (t : T) → has j (lib.insert_key k t).1 ≡ ((k == j) || has j t)
    pub deleted : (k : Str) (t : T) → has k t ≡ true → (lib.delete_key k t).0 ≡ true
    pub has_deleted :
        (k j : Str) (t : T) → has j (lib.delete_key k t).1 ≡ (if k == j then false else has j t)
    pub visits : (s : Str) (t : T) → Visits (λ k. has_prefix s k && has k t) (lib.below s t)

  -- The set and the trie hold the same identifiers, none of them empty.
  pub record Agrees (h : Holds) (idx : TruncIndex T) : Type 0 where
    pub same : (k : Str) → h.has k idx.trie ≡ contains idx.ids k
    pub no_empty : contains idx.ids [] ≡ false

  -- Adding an identifier fails exactly when it holds a space, is empty or is there, and changes
  -- nothing then. The set and the trie hold the same identifiers afterwards.
  pub add_id-Agrees :
      (h : Holds) (id : Str) (idx : TruncIndex T)
      → Agrees h idx
      → Agrees h (add_id lib id idx).1
        × ((k : Str)
            → contains (add_id lib id idx).1.ids k ≡ (
                ((id == k) && (not (contains_byte b' ' id) && not (is_empty id)))
                || contains idx.ids k))
  unfolding add_id
  add_id-Agrees h id idx a = elim (Bool-cases (contains_byte b' ' id)) [
    | inl e ↦ rw (add_id, e) (a, λ k. ground (arith, e))
    | inr e ↦ elim (Bool-cases (is_empty id)) [
      | inl f ↦ rw (add_id, e, f) (a, λ k. ground (arith, e, f))
      | inr f ↦ elim (Bool-cases (contains idx.ids id)) [
        | inl g ↦ rw (add_id, e, f, g) (a, λ k. there idx.ids id k g _)
        | inr g ↦
            let fresh : (lib.insert_key id idx.trie).0 ≡ true =
              h.inserted id idx.trie (a.same id ∙ g) in
            rw (add_id, e, f, g, with_trie, fresh)
              (
                record {
                  same = λ k.
                      h.has_inserted id k idx.trie
                      ∙ ap (λ b. (id == k) || b) (a.same k)
                      ∙ sym (contains-add id k idx.ids);
                  no_empty = ground (arith, contains-add id [] idx.ids, a.no_empty, f, empty_eq id);
                },
                λ k. ground (arith, contains-add id k idx.ids, e, f),
              )
      ]
    ]
  ]

  only_one_iff :
      (p : Option (List Str)) (has : Str → Bool) (id : Str)
      → Visits has p
      → has [] ≡ false
      → (only_one lib p ≡ some id) ↔ ((has id ≡ true) × ((k : Str) → has k ≡ true → k ≡ id))
  unfolding contains
  only_one_iff none has id v e =
      (λ r. absurd (ground arith), λ (t, _). absurd (ground (arith, v id)))
  only_one_iff (some []) has id (_, v) e =
      (λ r. absurd (ground arith), λ (t, _). absurd (ground (arith, v id)))
  only_one_iff (some (x ∷ [])) has id (_, v) e = (
    λ r.
        let same : x ≡ id = ground arith in
        (
          sym (v id) ∙ ground (arith, eq_refl id, ap (λ (y : Str). y == id) same),
          λ k t. sym ((str_eq.beq_iff x k).0 (ground (arith, v k))) ∙ same,
        ),
    λ (t, _).
        let same : x ≡ id = (str_eq.beq_iff x id).0 (ground (arith, v id)) in
        let full : is_empty x ≡ false = ground (arith, v [], empty_eq x) in ground arith,
  )
  only_one_iff (some (x ∷ y ∷ ks)) has id ((apart, _), v) e = (
    λ r. absurd (ground arith),
    λ (t, only).
        let first = only x (sym (v x) ∙ ground (arith, eq_refl x)) in
        let second = only y (sym (v y) ∙ ground (arith, eq_refl y)) in
        absurd (ground (arith, str_eq.beq_iff y x, first, second)),
  )

  -- A prefix finds an identifier exactly when it is not empty, and that identifier is the only one
  -- of the index that has it.
  pub find_iff :
      (h : Holds) (s id : Str) (idx : TruncIndex T)
      → Agrees h idx
      → (find lib s idx ≡ some id) ↔ (
          (is_empty s ≡ false)
          × (has_prefix s id ≡ true)
          × (contains idx.ids id ≡ true)
          × ((k : Str) → has_prefix s k ≡ true → contains idx.ids k ≡ true → k ≡ id))
  unfolding find
  find_iff h s id idx a =
      let has = λ (k : Str). has_prefix s k && h.has k idx.trie in
      let none_empty : has [] ≡ false = ground (arith, a.same [], a.no_empty) in
      let (there, back) =
        only_one_iff (lib.below s idx.trie) has id (h.visits s idx.trie) none_empty in
      elim (Bool-cases (is_empty s)) [
        | inl e ↦ (λ r. absurd (ground (arith, e)), λ (full, _, _, _). absurd (ground (arith, e)))
        | inr e ↦ (
          λ r.
              let (held, only) = there (ground (arith, e)) in
              (
                e,
                ground (arith, held),
                ground (arith, held, a.same id),
                λ k p c. only k (ground (arith, p, c, a.same k)),
              ),
          λ (_, p, c, only).
              let r = back (
                ground (arith, p, c, a.same id),
                λ k t. only k (ground (arith, t)) (ground (arith, t, a.same k)),
              ) in
              ground (arith, e, r),
        )
      ]
