-- ===== src/Archive/Aufs.antt =====
-- archive/changes.go and diff.go: the changes that a layer with whiteouts holds, the names of the
-- whiteouts that are written, and device numbers. What `filepath.Walk` visits and what `os.Stat`
-- finds in a layer are arguments.
use docker_analysis.Base.{
  ℕ, ◌+◌, ◌*◌, ◌/◌, ◌%◌, ◌^◌, ◌<◌, ◌≡◌, ◌≢◌, ◌↔◌, Bool, false, ◌&&◌, ◌||◌, List, [], ◌∷◌, ◌++◌,
  Option, none, some, if◌then◌else◌, ◌==◌, str_eq, Str, codes, nat_beq, is_empty, arith, ◌⊎◌, refl,
  inl, inr, str_beq_iff,
}
use docker_analysis.Base.Text.{after_prefix, has_prefix}
use docker_analysis.Archive.Changes.{modify, add, delete, Change, Timespec}

-- What `os.FileInfo` tells of a file.
pub record Status : Type 0 where
  pub is_directory : Bool
  pub size : ℕ
  pub mode : ℕ
  pub time : Timespec

-- A file that the walk visits, other than the root: its directory's elements and its name.
pub record Entry : Type 0 where
  pub dir : List Str
  pub base : Str
  pub status : Status

-- What a layer has at a path; `broken` is an error other than a missing file.
pub data Stated : Type 0 where
  missing broken : Stated
  found : Status → Stated

abbrev pub Layer : Type 0
Layer = List Str → Stated

pub data Outcome : Type 0 where
  skipped walk_error : Outcome
  recorded : Change → Outcome

unfoldable pub same_fs_time : Timespec → Timespec → Bool
same_fs_time a b =
    (nat_beq a.sec b.sec && nat_beq a.nsec b.nsec)
    || (nat_beq a.sec b.sec && (nat_beq a.nsec 0 || nat_beq b.nsec 0))

abbrev pub whiteout_prefix : Str
whiteout_prefix = codes ".wh."

-- `filepath.Match("/.wh..wh.*", path)`, whose "*" matches no "/".
unfoldable pub is_metadata : Entry → Bool
is_metadata e = is_empty e.dir && has_prefix (codes ".wh..wh.") e.base

unfoldable pub parent_of : List Str → List Str
parent_of [] = []
parent_of (x ∷ []) = []
parent_of (x ∷ y ∷ r) = x ∷ parent_of (y ∷ r)

-- `filepath.Join(dir, name)` for a name without "/".
unfoldable pub join : List Str → Str → List Str
unfolding parent_of
join dir name =
    if is_empty name || name == codes "."
    then dir
    else if name == codes ".."
    then parent_of dir
    else dir ++ name ∷ []

abbrev pub unchanged_dir : Status → Status → Bool
unchanged_dir old new =
    (old.is_directory && new.is_directory)
    && (nat_beq new.size old.size && (nat_beq new.mode old.mode && same_fs_time new.time old.time))

-- The loop over the layers: the first one that has the file decides.
unfoldable pub in_layers : List Str → Status → List Layer → Outcome
unfolding same_fs_time
in_layers path status [] = recorded (record { path = path; kind = add })
in_layers path status (layer ∷ rest) = elim (layer path) [
  | broken ↦ walk_error
  | missing ↦ in_layers path status rest
  | found old ↦
      if unchanged_dir old status then skipped else recorded (record { path = path; kind = modify })
]

-- The function that `Changes` walks with.
unfoldable pub visit : List Layer → Entry → Outcome
unfolding is_metadata join in_layers
visit layers e = if is_metadata e then skipped else elim (after_prefix whiteout_prefix e.base) [
  | some original ↦ recorded (record { path = join e.dir original; kind = delete })
  | none ↦ in_layers (e.dir ++ e.base ∷ []) e.status layers
]

-- `Changes`, over what the walk visits; `none` is its error.
unfoldable pub layer_changes : List Layer → List Entry → Option (List Change)
unfolding visit
layer_changes layers [] = some []
layer_changes layers (e ∷ es) = elim (visit layers e) [
  | walk_error ↦ none
  | skipped ↦ layer_changes layers es
  | recorded c ↦ elim (layer_changes layers es) [ none ↦ none | some cs ↦ some (c ∷ cs) ]
]

-- The name under which `ExportChanges` writes a deletion.
unfoldable pub whiteout : List Str → Str → List Str × Str
whiteout dir base = (dir, whiteout_prefix ++ base)

-- `major` and `minor`: 12 bits from bit 8 on, and the 8 bits below with the 12 bits above.
unfoldable pub major : ℕ → ℕ
major device = device / 0x100 % 0x1000

unfoldable pub minor : ℕ → ℕ
minor device = device % 0x100 + device / 0x100000 % 0x1000 * 0x100

-- `mkdev`, whose parts share no bit.
unfoldable pub mkdev : ℕ → ℕ → ℕ
mkdev maj min = (min / 0x100 % 0x1000 * 0x100000 + maj % 0x1000 * 0x100 + min % 0x100) % 2 ^ 32

-- A device number of 32 bits is made again of its two parts.
pub mkdev-major-minor :
    (device : ℕ) → device < 2 ^ 32 → mkdev (major device) (minor device) ≡ device
unfolding mkdev major minor
mkdev-major-minor device h = omega arith

-- A major number of 12 bits and a minor number of 20 bits come back from their device number.
pub major-mkdev :
    (maj min : ℕ)
    → maj < 0x1000
    → min < 0x100000
    → (major (mkdev maj min) ≡ maj) × (minor (mkdev maj min) ≡ min)
unfolding mkdev major minor
major-mkdev maj min h k = (omega arith, omega arith)

after_prefix-append : (p s : Str) → after_prefix p (p ++ s) ≡ some s
unfolding after_prefix
after_prefix-append [] s = refl
after_prefix-append (x ∷ p) s = ground (arith, after_prefix-append p s)

-- A name that stands for itself in a path.
abbrev pub Proper : Str → Type 0
Proper name = (name ≢ []) × (name ≢ codes ".") × (name ≢ codes "..")

join-Proper : (dir : List Str) (name : Str) → Proper name → join dir name ≡ dir ++ name ∷ []
unfolding join
join-Proper dir name (a, b, c) =
    ground (arith, str_beq_iff name (codes "."), str_beq_iff name (codes ".."), str_beq_iff name [])

-- The whiteout that is written for a deleted file is read as the deletion of that file, except for
-- one in the root whose whiteout has the name of metadata.
pub visit-whiteout :
    (layers : List Layer) (dir : List Str) (base : Str) (status : Status)
    → Proper base
    → is_metadata
        (record { dir = (whiteout dir base).0; base = (whiteout dir base).1; status = status })
      ≡ false
    → visit layers
        (record { dir = (whiteout dir base).0; base = (whiteout dir base).1; status = status })
      ≡ recorded (record { path = dir ++ base ∷ []; kind = delete })
unfolding visit whiteout
visit-whiteout layers dir base status proper plain =
    rw (visit, plain, after_prefix-append whiteout_prefix base, join-Proper dir base proper) refl

Stated-cases : (s : Stated) → (s ≡ missing) ⊎ (s ≡ broken) ⊎ ((old : Status) × (s ≡ found old))
Stated-cases missing = inl refl
Stated-cases broken = inr (inl refl)
Stated-cases (found old) = inr (inr (old, refl))

abbrev pub AllMissing : List Str → List Layer → Type 0
AllMissing path [] = Unit
AllMissing path (layer ∷ rest) = (layer path ≡ missing) × AllMissing path rest

-- A file is recorded as added exactly when no layer has one at its path.
pub in_layers-add :
    (path : List Str) (status : Status) (layers : List Layer)
    → (in_layers path status layers ≡ recorded (record { path = path; kind = add }))
      ↔ AllMissing path layers
unfolding in_layers
in_layers-add path status [] = (λ h. tt, λ h. refl)
in_layers-add path status (layer ∷ rest) = elim (Stated-cases (layer path)) [
  | inl e ↦
      let (there, back) = in_layers-add path status rest in
      (λ h. (e, there (rw (in_layers, e) at h)), λ (_, gone). rw (in_layers, e) (back gone))
  | inr (inl e) ↦ (λ h. absurd (ground (arith, e)), λ (f, _). absurd (ground (arith, e)))
  | inr (inr (old, e)) ↦ (λ h. absurd (ground (arith, e)), λ (f, _). absurd (ground (arith, e)))
]
