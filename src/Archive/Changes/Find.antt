-- ===== src/Archive/Changes/Find.antt =====
-- Whether a list of changes has one of a kind at a path.
use docker_analysis.Base.{
  ◌≡◌, ◌⊎◌, inl, inr, Bool, true, false, ◌&&◌, ◌||◌, List, [], ◌∷◌, ◌++◌, Option, none, some,
  if◌then◌else◌, ◌==◌, str_eq, Str, arith, refl, ap, ap₂, ◌∙◌, Option-cases, eq_refl,
}
use docker_analysis.Archive.Changes.{
  ChangeType, modify, add, delete, Change, FileInfo, file_info, Children, childless, child_and,
  child, without, modified, old_children, added, deletions, add_changes, child_changes,
}

unfoldable pub path_beq : List Str → List Str → Bool
path_beq [] [] = true
path_beq [] (y ∷ ys) = false
path_beq (x ∷ xs) [] = false
path_beq (x ∷ xs) (y ∷ ys) = x == y && path_beq xs ys

unfoldable pub kind_beq : ChangeType → ChangeType → Bool
kind_beq modify modify = true
kind_beq modify add = false
kind_beq modify delete = false
kind_beq add modify = false
kind_beq add add = true
kind_beq add delete = false
kind_beq delete modify = false
kind_beq delete add = false
kind_beq delete delete = true

unfoldable pub has_change : ChangeType → List Str → List Change → Bool
unfolding path_beq kind_beq
has_change kind path [] = false
has_change kind path (c ∷ cs) =
    (kind_beq c.kind kind && path_beq c.path path) || has_change kind path cs

pub has_change-append :
    (kind : ChangeType) (path : List Str) (xs ys : List Change)
    → has_change kind path (xs ++ ys) ≡ (has_change kind path xs || has_change kind path ys)
unfolding has_change
has_change-append kind path [] ys = refl
has_change-append kind path (x ∷ xs) ys = ground (arith, has_change-append kind path xs ys)

pub path_beq-append : (path a b : List Str) → path_beq (path ++ a) (path ++ b) ≡ path_beq a b
unfolding path_beq
path_beq-append [] a b = refl
path_beq-append (x ∷ path) a b = ground (arith, path_beq-append path a b, eq_refl x)

-- What follows the elements of a path.
unfoldable pub strip : List Str → List Str → Option (List Str)
strip [] t = some t
strip (x ∷ xs) [] = none
strip (x ∷ xs) (y ∷ ys) = let rest = strip xs ys in if x == y then rest else none

abbrev pub next_element : Str → Option (List Str) → Option (List Str)
next_element n none = none
next_element n (some []) = none
next_element n (some (m ∷ r)) = if n == m then some r else none

pub strip-snoc :
    (path : List Str) (n : Str) (t : List Str)
    → strip (path ++ n ∷ []) t ≡ next_element n (strip path t)
unfolding strip
strip-snoc [] n [] = refl
strip-snoc [] n (y ∷ ys) = refl
strip-snoc (x ∷ xs) n [] = refl
strip-snoc (x ∷ xs) n (y ∷ ys) = ground (arith, strip-snoc xs n ys)

path_beq-strip : (path t : List Str) → strip path t ≡ none → path_beq path t ≡ false
unfolding strip path_beq
path_beq-strip [] t h = absurd (ground arith)
path_beq-strip (x ∷ xs) [] h = refl
path_beq-strip (x ∷ xs) (y ∷ ys) h = ground (arith, path_beq-strip xs ys)

pub strip-append : (path t : List Str) → strip path (path ++ t) ≡ some t
unfolding strip
strip-append [] t = refl
strip-append (x ∷ xs) t = ground (arith, strip-append xs t, eq_refl x)

-- No path of the directory's inside is `t`.
abbrev Outside : List Str → List Str → Type 0
Outside path t = (strip path t ≡ none) ⊎ (strip path t ≡ some [])

not_inside :
    (path : List Str) (n : Str) (t : List Str) → Outside path t → strip (path ++ n ∷ []) t ≡ none
not_inside path n t (inl h) = strip-snoc path n t ∙ ap (next_element n) h
not_inside path n t (inr h) = strip-snoc path n t ∙ ap (next_element n) h

deletions-Outside :
    (kind : ChangeType) (path t : List Str) (left : Children)
    → Outside path t
    → has_change kind t (deletions path left) ≡ false
unfolding deletions has_change
deletions-Outside kind path t childless out = refl
deletions-Outside kind path t (child_and n info rest) out = ground (
  arith,
  path_beq-strip (path ++ n ∷ []) t (not_inside path n t out),
  deletions-Outside kind path t rest out,
)

pub modified-outside :
    (kind : ChangeType) (path t : List Str) (old new : FileInfo)
    → strip path t ≡ none
    → has_change kind t (modified path old new) ≡ false
unfolding has_change
modified-outside kind path t old new out = ground (arith, path_beq-strip path t out)

pub added-outside :
    (kind : ChangeType) (path t : List Str) (old : Option FileInfo)
    → strip path t ≡ none
    → has_change kind t (added path old) ≡ false
unfolding has_change
added-outside kind path t none out = ground (arith, path_beq-strip path t out)
added-outside kind path t (some o) out = refl

pub child_changes-none :
    (path : List Str) (n : Str) (info : FileInfo) (rest left : Children)
    → child n left ≡ none
    → child_changes path (child_and n info rest) left
      ≡ add_changes (path ++ n ∷ []) info none ++ child_changes path rest left
unfolding child_changes
child_changes-none path n info rest left e = ground (arith, e)

pub child_changes-some :
    (path : List Str) (n : Str) (info old : FileInfo) (rest left : Children)
    → child n left ≡ some old
    → child_changes path (child_and n info rest) left
      ≡ modified (path ++ n ∷ []) old info
        ++ (add_changes (path ++ n ∷ []) info (some old)
            ++ child_changes path rest (without n left))
unfolding child_changes
child_changes-some path n info old rest left e = ground (arith, e)

mutual
  unfolding add_changes child_changes

  -- All changes of a file are at its path or below it.
  pub add_changes-outside :
      (kind : ChangeType) (path t : List Str) (new : FileInfo) (old : Option FileInfo)
      → strip path t ≡ none
      → has_change kind t (add_changes path new old) ≡ false
  add_changes-outside kind path t (file_info s c kids) old out = ground (
    arith,
    has_change-append kind t (added path old)
        (child_changes path kids (old_children path (file_info s c kids) old)),
    added-outside kind path t old out,
    child_changes-Outside kind path t kids (old_children path (file_info s c kids) old) (inl out),
  )

  -- All changes of the children are below the directory.
  pub child_changes-Outside :
      (kind : ChangeType) (path t : List Str) (kids left : Children)
      → Outside path t
      → has_change kind t (child_changes path kids left) ≡ false
  child_changes-Outside kind path t childless left out = deletions-Outside kind path t left out
  child_changes-Outside kind path t (child_and n info rest) left out =
      let below = not_inside path n t out in
      elim (Option-cases (child n left)) [
        | inl e ↦
            ap (has_change kind t) (child_changes-none path n info rest left e)
            ∙ has_change-append kind t (add_changes (path ++ n ∷ []) info none)
                (child_changes path rest left)
            ∙ ap₂ (◌||◌) (add_changes-outside kind (path ++ n ∷ []) t info none below)
                (child_changes-Outside kind path t rest left out)
        | inr (o, e) ↦
            let own = add_changes (path ++ n ∷ []) info (some o) in
            let later = child_changes path rest (without n left) in
            ap (has_change kind t) (child_changes-some path n info o rest left e)
            ∙ has_change-append kind t (modified (path ++ n ∷ []) o info) (own ++ later)
            ∙ ap₂ (◌||◌) (modified-outside kind (path ++ n ∷ []) t o info below) (
                has_change-append kind t own later
                ∙ ap₂ (◌||◌) (add_changes-outside kind (path ++ n ∷ []) t info (some o) below)
                    (child_changes-Outside kind path t rest (without n left) out))
      ]
