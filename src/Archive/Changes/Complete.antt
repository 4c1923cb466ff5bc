-- ===== src/Archive/Changes/Complete.antt =====
-- The changes between two trees are exactly the differences that looking paths up in them shows.
use docker_analysis.Base.{
  ◌≡◌, ◌⊎◌, inl, inr, Bool, true, false, ◌&&◌, ◌||◌, List, [], ◌∷◌, ◌++◌, Option, none, some, ◌==◌,
  str_eq, Str, arith, refl, ap, ap₂, ◌∙◌, sym, Option-cases, Bool-cases, eq_refl, subst,
}
use docker_analysis.Archive.Changes.{
  ChangeType, modify, add, delete, FileInfo, file_info, Children, childless, child_and, child,
  is_dir, dir_bit, Stat, children_of, look_up, differs, old_children, added, add_changes,
  child_changes, changes,
}
use docker_analysis.Archive.Changes.Find.{
  has_change, kind_beq, path_beq, has_change-append, strip-append, child_changes-Outside, strip,
}
use docker_analysis.Archive.Changes.Laws.{
  below, below_assoc, deleted, own_modified, own, Named, found_in, has_change-child_changes,
}
use mathlib.Core.List.{append-nil}

abbrev pub DirOrEmpty : Stat → Children → Type 0
DirOrEmpty s childless = Unit
DirOrEmpty s (child_and n c rest) = dir_bit s ≡ true

-- Names are distinct, and only a directory has children.
abbrev mutual
  pub WellFormed : FileInfo → Type 0
  WellFormed (file_info s capability kids) = DirOrEmpty s kids × WellFormedChildren kids

  pub WellFormedChildren : Children → Type 0
  WellFormedChildren childless = Unit
  WellFormedChildren (child_and n c rest) =
      WellFormed c × (child n rest ≡ none) × WellFormedChildren rest

-- What is listed at a path, from what is there now and what was there. `d` tells whether it stands
-- in a directory that is still there.
abbrev pub expected : ChangeType → Bool → Option FileInfo → Option FileInfo → Bool
expected kind d none none = false
expected kind d none (some old) = kind_beq delete kind && d
expected kind d (some new) none = kind_beq add kind
expected kind d (some new) (some old) = kind_beq modify kind && differs old new

-- Whether what holds the last element is there and is a directory.
unfoldable pub in_directory : List Str → List Str → FileInfo → Bool
unfolding is_dir child
in_directory path [] info = true
in_directory path (n ∷ []) info = is_dir path info
in_directory path (n ∷ m ∷ r) info = elim (child n (children_of info)) [
  | none ↦ false
  | some c ↦ in_directory (path ++ n ∷ []) (m ∷ r) c
]

abbrev pub look_opt : List Str → Option FileInfo → Option FileInfo
look_opt path none = none
look_opt path (some info) = look_up path info

path_beq-longer : (path : List Str) (n : Str) (r : List Str) → path_beq path (path ++ n ∷ r) ≡ false
unfolding path_beq
path_beq-longer [] n r = refl
path_beq-longer (x ∷ path) n r = ground (arith, path_beq-longer path n r)

path_beq_self : (path : List Str) → path_beq path path ≡ true
unfolding path_beq
path_beq_self [] = refl
path_beq_self (x ∷ path) = ground (arith, path_beq_self path, eq_refl x)

Named-WellFormed : (kids : Children) → WellFormedChildren kids → Named kids
Named-WellFormed childless w = tt
Named-WellFormed (child_and n c rest) (_, fresh, w) = (fresh, Named-WellFormed rest w)

WellFormed-child :
    (kids : Children) (n : Str) (c : FileInfo)
    → WellFormedChildren kids
    → child n kids ≡ some c
    → WellFormed c
unfolding child
WellFormed-child childless n c w h = absurd (ground arith)
WellFormed-child (child_and m new rest) n c (here, _, w) h = elim (Bool-cases (m == n)) [
  | inl e ↦ subst WellFormed (ground (arith, e)) here
  | inr e ↦ WellFormed-child rest n c w (ground (arith, e))
]

-- A directory, or a file without children.
abbrev IsHolder : List Str → FileInfo → Type 0
IsHolder path info = (children_of info ≡ childless) ⊎ (is_dir path info ≡ true)

abbrev Below : ChangeType → List Str → Str → List Str → FileInfo → Type 0
Below kind path n r info =
    (c : FileInfo)
    → child n (children_of info) ≡ some c
    → (old : Option FileInfo)
    → own kind (path ++ n ∷ []) (below path n r) c old
      ≡ expected kind (in_directory (path ++ n ∷ []) r c) (look_up r c) (look_opt r old)

child_old :
    (path : List Str) (n : Str) (info c : FileInfo) (old : Option FileInfo)
    → IsHolder path info
    → child n (children_of info) ≡ some c
    → (old' : Option FileInfo) × (child n (old_children path info old) ≡ old')
      × ((r : List Str) → look_opt (n ∷ r) old ≡ look_opt r old')
unfolding child look_up
child_old path n info c none holder h = (none, refl, λ r. refl)
child_old path n info c (some o) (inl empty) h = absurd (ground (arith, ap (child n) empty))
child_old path n info c (some o) (inr dir) h = elim (Option-cases (child n (children_of o))) [
  | inl e ↦ (none, rw dir e, λ r. ground (arith, e))
  | inr (o', e) ↦ (some o', rw dir e, λ r. ground (arith, e))
]

missing-expected :
    (kind : ChangeType) (path : List Str) (n : Str) (r : List Str) (info : FileInfo)
    (old : Option FileInfo)
    → child n (children_of info) ≡ none
    → deleted kind r (child n (old_children path info old))
      ≡ expected kind (in_directory path (n ∷ r) info) none (look_opt (n ∷ r) old)
unfolding in_directory look_up child
missing-expected kind path n [] info none e = ground arith
missing-expected kind path n [] info (some o) e = elim (Bool-cases (is_dir path info)) [
  | inl d ↦ ground (arith, d)
  | inr d ↦ ground (arith, d)
]
missing-expected kind path n (m ∷ r) info old e = elim (Option-cases (look_opt (n ∷ m ∷ r) old)) [
  | inl l ↦ rw (in_directory, e, l) (ground arith)
  | inr (o, l) ↦ rw (in_directory, e, l) (ground arith)
]

in_directory-child :
    (path : List Str) (n : Str) (r : List Str) (info c : FileInfo)
    → IsHolder path info
    → child n (children_of info) ≡ some c
    → in_directory path (n ∷ r) info ≡ in_directory (path ++ n ∷ []) r c
unfolding in_directory child
in_directory-child path n [] info c (inl empty) e = absurd (ground (arith, ap (child n) empty))
in_directory-child path n [] info c (inr dir) e = dir
in_directory-child path n (m ∷ r) info c holder e = rw (in_directory, e) refl

look_up-child :
    (n : Str) (r : List Str) (info c : FileInfo)
    → child n (children_of info) ≡ some c
    → look_up (n ∷ r) info ≡ look_up r c
unfolding look_up
look_up-child n r info c e = rw (look_up, e) refl

look_up-missing :
    (n : Str) (r : List Str) (info : FileInfo)
    → child n (children_of info) ≡ none
    → look_up (n ∷ r) info ≡ none
unfolding look_up
look_up-missing n r info e = rw (look_up, e) refl

found_in-expected :
    (kind : ChangeType) (path : List Str) (n : Str) (r : List Str) (info : FileInfo)
    (old : Option FileInfo)
    → IsHolder path info
    → Below kind path n r info
    → found_in kind path n r (child n (children_of info)) (child n (old_children path info old))
      ≡ expected kind (in_directory path (n ∷ r) info) (look_up (n ∷ r) info) (look_opt (n ∷ r) old)
found_in-expected kind path n r info old holder ih =
    elim (Option-cases (child n (children_of info))) [
      | inl e ↦
          ap (λ c. found_in kind path n r c (child n (old_children path info old))) e
          ∙ missing-expected kind path n r info old e
          ∙ ap (λ c. expected kind (in_directory path (n ∷ r) info) c (look_opt (n ∷ r) old))
              (sym (look_up-missing n r info e))
      | inr (c, e) ↦
          let (old', o, look) = child_old path n info c old holder e in
          ap (λ c. found_in kind path n r c (child n (old_children path info old))) e
          ∙ ap (own kind (path ++ n ∷ []) (below path n r) c) o
          ∙ ih c e old'
          ∙ ap₂ (λ d l. expected kind d l (look_opt r old'))
              (sym (in_directory-child path n r info c holder e)) (sym (look_up-child n r info c e))
          ∙ ap (expected kind (in_directory path (n ∷ r) info) (look_up (n ∷ r) info))
              (sym (look r))
    ]

added-longer :
    (kind : ChangeType) (path : List Str) (n : Str) (r : List Str) (old : Option FileInfo)
    → has_change kind (path ++ n ∷ r) (added path old) ≡ false
unfolding has_change
added-longer kind path n r none = ground (arith, path_beq-longer path n r)
added-longer kind path n r (some o) = refl

has_change-add_changes :
    (kind : ChangeType) (path : List Str) (n : Str) (r : List Str) (info : FileInfo)
    (old : Option FileInfo)
    → Named (children_of info)
    → IsHolder path info
    → Below kind path n r info
    → has_change kind (path ++ n ∷ r) (add_changes path info old)
      ≡ expected kind (in_directory path (n ∷ r) info) (look_up (n ∷ r) info) (look_opt (n ∷ r) old)
unfolding add_changes
has_change-add_changes kind path n r (file_info s cap kids) old named holder ih =
    let info = file_info s cap kids in
    has_change-append kind (path ++ n ∷ r) (added path old)
      (child_changes path kids (old_children path info old))
    ∙ ap
        (λ b.
          b
          || has_change kind (path ++ n ∷ r) (child_changes path kids (old_children path info old)))
        (added-longer kind path n r old)
    ∙ ap (λ t. has_change kind t (child_changes path kids (old_children path info old)))
        (sym (below_assoc path n r))
    ∙ has_change-child_changes kind path n r kids (old_children path info old) named
    ∙ found_in-expected kind path n r info old holder ih

IsHolder-WellFormed : (path : List Str) (info : FileInfo) → WellFormed info → IsHolder path info
unfolding is_dir
IsHolder-WellFormed path (file_info s cap childless) w = inl refl
IsHolder-WellFormed path (file_info s cap (child_and n c rest)) w = inr (ground arith)

strip_self : (path : List Str) → strip path path ≡ some []
strip_self path = ap (strip path) (sym (append-nil path)) ∙ strip-append path []

own_here :
    (kind : ChangeType) (path : List Str) (info : FileInfo) (old : Option FileInfo) (d : Bool)
    → own kind path path info old ≡ expected kind d (some info) old
unfolding add_changes has_change
own_here kind path (file_info s cap kids) none d = ground (
  arith,
  path_beq_self path,
  child_changes-Outside kind path path kids childless (inr (strip_self path)),
)
own_here kind path (file_info s cap kids) (some o) d =
    let info = file_info s cap kids in
    ground (
      arith,
      path_beq_self path,
      child_changes-Outside kind path path kids (old_children path info (some o))
          (inr (strip_self path)),
    )

look_opt-here : (old : Option FileInfo) → look_opt [] old ≡ old
unfolding look_up
look_opt-here none = refl
look_opt-here (some o) = refl

own_modified-longer :
    (kind : ChangeType) (path : List Str) (n : Str) (r : List Str) (info : FileInfo)
    (old : Option FileInfo)
    → own_modified kind path (path ++ n ∷ r) info old ≡ false
unfolding has_change
own_modified-longer kind path n r info none = refl
own_modified-longer kind path n r info (some o) = ground (arith, path_beq-longer path n r)

Named-of : (info : FileInfo) → WellFormed info → Named (children_of info)
Named-of (file_info s cap kids) (_, w) = Named-WellFormed kids w

children-WellFormed : (info : FileInfo) → WellFormed info → WellFormedChildren (children_of info)
children-WellFormed (file_info s cap kids) (_, w) = w

own-expected :
    (kind : ChangeType) (r path : List Str) (info : FileInfo) (old : Option FileInfo)
    → WellFormed info
    → own kind path (path ++ r) info old
      ≡ expected kind (in_directory path r info) (look_up r info) (look_opt r old)
unfolding look_up in_directory
own-expected kind [] path info old w =
    ap (λ t. own kind path t info old) (append-nil path)
    ∙ own_here kind path info old true
    ∙ ap (expected kind true (some info)) (sym (look_opt-here old))
own-expected kind (n ∷ r) path info old w =
    ap (λ b. b || has_change kind (path ++ n ∷ r) (add_changes path info old))
      (own_modified-longer kind path n r info old)
    ∙ has_change-add_changes kind path n r info old (Named-of info w)
        (IsHolder-WellFormed path info w)
        (λ c e old'.
          own-expected kind r (path ++ n ∷ []) c old'
            (WellFormed-child (children_of info) n c (children-WellFormed info w) e))

-- The changes from an old tree to a new one list, for each kind and each path below the root,
-- exactly what looking it up in the two trees shows: an addition where it is only in the new one; a
-- modification where it is in both and differs; a deletion where it is only in the old one and
-- what held it is a directory of the new one. The names in a directory of the new tree are distinct,
-- and below its root only a directory holds files.
pub has_change-changes :
    (kind : ChangeType) (n : Str) (r : List Str) (new old : FileInfo)
    → WellFormedChildren (children_of new)
    → has_change kind (n ∷ r) (changes new old)
      ≡ expected kind (in_directory [] (n ∷ r) new) (look_up (n ∷ r) new) (look_up (n ∷ r) old)
unfolding changes is_dir
has_change-changes kind n r new old w =
    has_change-add_changes kind [] n r new (some old) (Named-WellFormed (children_of new) w)
      (inr refl)
      (λ c e old'. own-expected kind r (n ∷ []) c old' (WellFormed-child (children_of new) n c w e))
