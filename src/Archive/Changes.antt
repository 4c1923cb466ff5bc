-- ===== src/Archive/Changes.antt =====
-- archive/changes.go: the difference between two trees of files. A path is its elements from the
-- root on; the number of a signed type is its bit pattern, since they are only compared.
pub mod Find
pub mod Laws
pub mod Complete
use docker_analysis.Base.{
  ℕ, suc, ◌+◌, ◌*◌, ◌/◌, ◌%◌, ◌≡◌, Bool, true, false, ◌&&◌, ◌||◌, not, List, [], ◌∷◌, ◌++◌, Option,
  none, some, if◌then◌else◌, ◌==◌, str_eq, nat_eq, Str, codes, nat_beq, is_empty,
}

pub data ChangeType : Type 0 where
  modify add delete : ChangeType

pub record Change : Type 0 where
  pub path : List Str
  pub kind : ChangeType

pub record Timespec : Type 0 where
  pub sec : ℕ
  pub nsec : ℕ

-- The fields of `syscall.Stat_t` that are compared.
pub record Stat : Type 0 where
  pub mode : ℕ
  pub uid : ℕ
  pub gid : ℕ
  pub rdev : ℕ
  pub size : ℕ
  pub mtime : Timespec

-- A file with its status, its capability, and its children by their names.
mutual
  pub data FileInfo : Type 0 where
    file_info : Stat → Str → Children → FileInfo

  pub data Children : Type 0 where
    childless : Children
    child_and : Str → FileInfo → Children → Children

abbrev pub stat_of : FileInfo → Stat
stat_of (file_info stat capability children) = stat

abbrev pub capability_of : FileInfo → Str
capability_of (file_info stat capability children) = capability

abbrev pub children_of : FileInfo → Children
children_of (file_info stat capability children) = children

-- `children[name]`
unfoldable pub child : Str → Children → Option FileInfo
child name childless = none
child name (child_and n info rest) =
    let later = child name rest in if n == name then some info else later

-- `delete(children, name)`
unfoldable pub without : Str → Children → Children
without name childless = childless
without name (child_and n info rest) =
    let later = without name rest in if n == name then later else child_and n info later

unfoldable pub same_fs_time_spec : Timespec → Timespec → Bool
same_fs_time_spec a b =
    nat_beq a.sec b.sec && (nat_beq a.nsec b.nsec || nat_beq a.nsec 0 || nat_beq b.nsec 0)

-- `mode & S_IFDIR == S_IFDIR`
abbrev pub dir_bit : Stat → Bool
dir_bit s = nat_beq (s.mode / 0x4000 % 2) 1

-- `isDir`; the root is a directory whatever its mode.
unfoldable pub is_dir : List Str → FileInfo → Bool
is_dir path info = is_empty path || dir_bit (stat_of info)

-- The loop of `LookUp` over the elements of the path.
unfoldable pub look_up : List Str → FileInfo → Option FileInfo
unfolding child
look_up [] info = some info
look_up (elem ∷ rest) info = elim (child elem (children_of info)) [
  | none ↦ none
  | some c ↦ look_up rest c
]

unfoldable pub differs : FileInfo → FileInfo → Bool
unfolding same_fs_time_spec
differs old new =
    let o = stat_of old in
    let n = stat_of new in
    not (nat_beq o.mode n.mode)
    || not (nat_beq o.uid n.uid)
    || not (nat_beq o.gid n.gid)
    || not (nat_beq o.rdev n.rdev)
    || (not (nat_beq o.size n.size) && not (dir_bit o))
    || not (same_fs_time_spec o.mtime n.mtime)
    || not (capability_of old == capability_of new)

abbrev pub modified : List Str → FileInfo → FileInfo → List Change
modified path old new = if differs old new then record { path = path; kind = modify } ∷ [] else []

-- The copy of the old children: none for a file that is no directory now.
abbrev pub old_children : List Str → FileInfo → Option FileInfo → Children
old_children path info none = childless
old_children path info (some old) = if is_dir path info then children_of old else childless

abbrev pub added : List Str → Option FileInfo → List Change
added path none = record { path = path; kind = add } ∷ []
added path (some old) = []

-- The last loop of `addChanges`, over the old children that are left.
unfoldable pub deletions : List Str → Children → List Change
deletions path childless = []
deletions path (child_and name info rest) =
    record { path = path ++ name ∷ []; kind = delete } ∷ deletions path rest

-- `addChanges` of a file at a path, as the list of what it appends, and its loop over the children,
-- whose last argument is what is left of the copy of the old children. The children come in the
-- order that Go's iteration gives.
unfoldable mutual
  unfolding is_dir child without differs deletions

  pub add_changes : List Str → FileInfo → Option FileInfo → List Change
  add_changes path (file_info stat capability children) old =
      added path old
      ++ child_changes path children (old_children path (file_info stat capability children) old)

  pub child_changes : List Str → Children → Children → List Change
  child_changes path childless left = deletions path left
  child_changes path (child_and name new rest) left = elim (child name left) [
    | some old ↦
        modified (path ++ name ∷ []) old new
        ++ (add_changes (path ++ name ∷ []) new (some old)
            ++ child_changes path rest (without name left))
    | none ↦ add_changes (path ++ name ∷ []) new none ++ child_changes path rest left
  ]

-- `Changes` of a root, and so `ChangesDirs` of the two trees that are collected.
unfoldable pub changes : FileInfo → FileInfo → List Change
unfolding add_changes
changes new old = add_changes [] new (some old)

-- What a change adds to the size, for the size of its file.
unfoldable pub counted_size : ChangeType → Option ℕ → ℕ
counted_size modify none = 0
counted_size modify (some n) = n
counted_size add none = 0
counted_size add (some n) = n
counted_size delete _ = 0

-- `ChangesSize`; `size_of` is what `Lstat` says of the file, its size where it is there and no
-- directory.
unfoldable pub changes_size : (List Str → Option ℕ) → List Change → ℕ
unfolding counted_size
changes_size size_of [] = 0
changes_size size_of (c ∷ cs) = counted_size c.kind (size_of c.path) + changes_size size_of cs
