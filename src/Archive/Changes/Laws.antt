-- ===== src/Archive/Changes/Laws.antt =====
-- The changes between two trees are exactly the differences that their look-ups show.
use docker_analysis.Base.{
  ◌≡◌, inl, inr, Bool, true, false, ◌&&◌, ◌||◌, List, [], ◌∷◌, ◌++◌, Option, none, some,
  if◌then◌else◌, ◌==◌, str_eq, Str, is_empty, arith, refl, ap, ap₂, ◌∙◌, Option-cases, Bool-cases,
  eq_refl, subst,
}
use docker_analysis.Archive.Changes.{
  ChangeType, delete, FileInfo, Children, childless, child_and, child, without, modified, deletions,
  add_changes, child_changes,
}
use docker_analysis.Archive.Changes.Find.{
  has_change, kind_beq, path_beq, has_change-append, path_beq-append, strip, strip-snoc,
  next_element, strip-append, modified-outside, add_changes-outside, child_changes-none,
  child_changes-some,
}
use mathlib.Core.List.{append_assoc}

abbrev pub is_some : Option FileInfo → Bool
is_some none = false
is_some (some _) = true

child-without :
    (m n : Str) (left : Children)
    → child n (without m left) ≡ (if m == n then none else child n left)
unfolding child without
child-without m n childless = ground arith
child-without m n (child_and k info rest) =
    ground
      (arith, child-without m n rest, str_eq.beq_iff k m, str_eq.beq_iff k n, str_eq.beq_iff m n)

-- The path of a child, and what follows it.
abbrev pub below : List Str → Str → List Str → List Str
below path n r = path ++ n ∷ [] ++ r

pub below_assoc : (path : List Str) (n : Str) (r : List Str) → below path n r ≡ path ++ n ∷ r
below_assoc path n r = append_assoc path (n ∷ []) r

strip-sibling :
    (path : List Str) (m n : Str) (r : List Str)
    → (m == n) ≡ false
    → strip (path ++ m ∷ []) (below path n r) ≡ none
strip-sibling path m n r other =
    strip-snoc path m (below path n r)
    ∙ ap (next_element m) (ap (strip path) (below_assoc path n r) ∙ strip-append path (n ∷ r))
    ∙ ground (arith, other)

path_beq-below :
    (path : List Str) (m n : Str) (r : List Str)
    → path_beq (path ++ m ∷ []) (below path n r) ≡ (m == n && is_empty r)
unfolding path_beq
path_beq-below path m n r =
    ap (path_beq (path ++ m ∷ [])) (below_assoc path n r)
    ∙ path_beq-append path (m ∷ []) (n ∷ r)
    ∙ rest r
  where
    rest : (r : List Str) → (m == n && path_beq [] r) ≡ (m == n && is_empty r)
    rest [] = refl
    rest (x ∷ r) = refl

-- Whether a deletion of a child is looked for.
abbrev pub deleted : ChangeType → List Str → Option FileInfo → Bool
deleted kind r old = kind_beq delete kind && is_empty r && is_some old

has_change-deletions :
    (kind : ChangeType) (path : List Str) (n : Str) (r : List Str) (left : Children)
    → has_change kind (below path n r) (deletions path left) ≡ deleted kind r (child n left)
unfolding has_change deletions child
has_change-deletions kind path n r childless = ground arith
has_change-deletions kind path n r (child_and m info rest) =
    ground (arith, has_change-deletions kind path n r rest, path_beq-below path m n r)

-- What a child at a path contributes: its modification, and its own changes.
abbrev pub own_modified : ChangeType → List Str → List Str → FileInfo → Option FileInfo → Bool
own_modified kind path t new none = false
own_modified kind path t new (some old) = has_change kind t (modified path old new)

abbrev pub own : ChangeType → List Str → List Str → FileInfo → Option FileInfo → Bool
own kind path t new old =
    own_modified kind path t new old || has_change kind t (add_changes path new old)

own-outside :
    (kind : ChangeType) (path t : List Str) (new : FileInfo) (old : Option FileInfo)
    → strip path t ≡ none
    → own kind path t new old ≡ false
own-outside kind path t new none out = add_changes-outside kind path t new none out
own-outside kind path t new (some o) out =
    ap₂ (◌||◌) (modified-outside kind path t o new out)
      (add_changes-outside kind path t new (some o) out)

-- The old children that are left after a child of that name.
abbrev left_after : Str → Children → Option FileInfo → Children
left_after m left none = left
left_after m left (some _) = without m left

child_changes-own :
    (kind : ChangeType) (path t : List Str) (m : Str) (new : FileInfo) (rest left : Children)
    → has_change kind t (child_changes path (child_and m new rest) left) ≡ (
        own kind (path ++ m ∷ []) t new (child m left)
        || has_change kind t (child_changes path rest (left_after m left (child m left))))
child_changes-own kind path t m new rest left = elim (Option-cases (child m left)) [
  | inl e ↦
      ap (has_change kind t) (child_changes-none path m new rest left e)
      ∙ has_change-append kind t (add_changes (path ++ m ∷ []) new none)
          (child_changes path rest left)
      ∙ rw e refl
  | inr (o, e) ↦
      ap (has_change kind t) (child_changes-some path m new o rest left e)
      ∙ has_change-append kind t (modified (path ++ m ∷ []) o new) _
      ∙ ap (◌||◌ (has_change kind t (modified (path ++ m ∷ []) o new)))
          (has_change-append kind t (add_changes (path ++ m ∷ []) new (some o)) _)
      ∙ rw e (or_assoc (has_change kind t (modified (path ++ m ∷ []) o new)) _ _)
]
  where
    or_assoc : (a b c : Bool) → (a || (b || c)) ≡ ((a || b) || c)
    or_assoc true b c = refl
    or_assoc false b c = refl

abbrev pub Named : Children → Type 0
Named childless = Unit
Named (child_and n info rest) = (child n rest ≡ none) × Named rest

abbrev pub found_in :
    ChangeType → List Str → Str → List Str → Option FileInfo → Option FileInfo → Bool
found_in kind path n r none old = deleted kind r old
found_in kind path n r (some new) old = own kind (path ++ n ∷ []) (below path n r) new old

child-left_after :
    (m n : Str) (left : Children)
    → (m == n) ≡ false
    → child n (left_after m left (child m left)) ≡ child n left
child-left_after m n left other = elim (Option-cases (child m left)) [
  | inl e ↦ rw e refl
  | inr (o, e) ↦ rw e (child-without m n left ∙ rw other refl)
]

child-left_after_self :
    (m : Str) (left : Children) → child m (left_after m left (child m left)) ≡ none
child-left_after_self m left = elim (Option-cases (child m left)) [
  | inl e ↦ rw e e
  | inr (o, e) ↦ rw e (child-without m m left ∙ rw (eq_refl m) refl)
]

child-children-at :
    (kind : ChangeType) (path : List Str) (m n : Str) (r : List Str) (new : FileInfo)
    (rest left : Children)
    → child m rest ≡ none
    → ((left' : Children)
        → has_change kind (below path n r) (child_changes path rest left')
          ≡ found_in kind path n r (child n rest) (child n left'))
    → has_change kind (below path n r) (child_changes path (child_and m new rest) left)
      ≡ found_in kind path n r (child n (child_and m new rest)) (child n left)
unfolding child
child-children-at kind path m n r new rest left fresh ih =
    let left' = left_after m left (child m left) in
    child_changes-own kind path (below path n r) m new rest left
    ∙ ap (◌||◌ (own kind (path ++ m ∷ []) (below path n r) new (child m left))) (ih left')
    ∙ elim (Bool-cases (m == n)) [
      | inl e ↦
          let same : m ≡ n = (str_eq.beq_iff m n).0 e in
          let gone : child n left' ≡ none =
            subst (λ k. child k left' ≡ none) same (child-left_after_self m left) in
          let absent : child n rest ≡ none = subst (λ k. child k rest ≡ none) same fresh in
          rw (e, gone, absent)
            (ground arith
              ∙ subst
                  (λ k.
                    own kind (path ++ m ∷ []) (below path n r) new (child m left)
                    ≡ own kind (path ++ k ∷ []) (below path n r) new (child k left))
                  same refl)
      | inr e ↦
          rw
            (
              e,
              child-left_after m n left e,
              own-outside kind (path ++ m ∷ []) (below path n r) new (child m left)
                  (strip-sibling path m n r e),
            )
            refl
    ]

pub has_change-child_changes :
    (kind : ChangeType) (path : List Str) (n : Str) (r : List Str) (kids left : Children)
    → Named kids
    → has_change kind (below path n r) (child_changes path kids left)
      ≡ found_in kind path n r (child n kids) (child n left)
unfolding child child_changes
has_change-child_changes kind path n r childless left named =
    has_change-deletions kind path n r left
has_change-child_changes kind path n r (child_and m new rest) left (fresh, named) =
    child-children-at kind path m n r new rest left fresh
      λ left'. has_change-child_changes kind path n r rest left' named
