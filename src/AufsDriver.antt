-- ===== src/AufsDriver.antt =====
-- daemon/graphdriver/aufs/aufs.go: the parents of the layers, and the counts of their mounts. What
-- the kernel and the file system answer in a call is an argument; names of layers have no newline.
mod Laws
use docker_analysis.Base.{
  ℕ, suc, ◌-◌, Bool, true, false, ◌&&◌, ◌||◌, not, List, [], ◌∷◌, Option, none, some, if◌then◌else◌,
  str_eq, take, Str, is_empty, ltb, nat_beq,
}
use docker_analysis.Base.Dict.{lookup, insert, delete}
use docker_analysis.Base.Keys.{contains, add, remove}

-- `layers` are the layers files by their lines, and `mounted` the layers that the kernel has mounted.
pub record Driver : Type 0 where
  pub layers : List (Str × List Str)
  pub active : List (Str × ℕ)
  pub mounted : List Str

-- `written` is the number of lines that were written before a write failed.
pub record Faults : Type 0 where
  pub dirs_fail : Bool
  pub create_fails : Bool
  pub written : Option ℕ
  pub read_fails : Bool
  pub mounted_fails : Bool
  pub mount_fails : Bool
  pub unmount_fails : Bool
  pub rename_fails : Bool
  pub remove_fails : Bool

pub data Parents : Type 0 where
  no_file unreadable : Parents
  parents : List Str → Parents

unfoldable pub non_empty_lines : List Str → List Str
non_empty_lines [] = []
non_empty_lines (l ∷ ls) = let rest = non_empty_lines ls in if is_empty l then rest else l ∷ rest

unfoldable pub get_parent_ids : Faults → Str → Driver → Parents
get_parent_ids f id d =
    if f.read_fails
    then unreadable
    else elim (lookup id d.layers) [ none ↦ no_file | some ls ↦ parents (non_empty_lines ls) ]

abbrev pub count_of : Str → Driver → ℕ
count_of id d = elim (lookup id d.active) [ none ↦ 0 | some n ↦ n ]

-- `Create`: the file of a layer lists its parent, and then the parents of that. What was written
-- before an error stays.
unfoldable pub create : Faults → Str → Str → Driver → Bool × Driver
create f id parent d =
    if f.dirs_fail || f.create_fails
    then (false, d)
    else let d₁ = record d { layers = insert id [] d.layers } in
      if is_empty parent then (true, d₁) else elim (get_parent_ids f parent d₁) [
        | no_file ↦ (false, d₁)
        | unreadable ↦ (false, d₁)
        | parents ids ↦ elim f.written [
          | some n ↦ (false, record d₁ { layers = insert id (take n (parent ∷ ids)) d.layers })
          | none ↦ (true, record d₁ { layers = insert id (parent ∷ ids) d.layers })
        ]
      ]

-- `mount` for a layer with parents.
unfoldable pub mount : Faults → Str → Driver → Bool × Driver
mount f id d =
    if f.mounted_fails
    then (false, d)
    else if contains d.mounted id
    then (true, d)
    else if f.mount_fails
    then (false, d)
    else (true, record d { mounted = add id d.mounted })

unfoldable pub unmount : Faults → Str → Driver → Bool × Driver
unmount f id d =
    if f.mounted_fails
    then (false, d)
    else if not (contains d.mounted id)
    then (true, d)
    else if f.unmount_fails
    then (false, d)
    else (true, record d { mounted = remove id d.mounted })

abbrev pub counted : Str → Driver → Driver
counted id d = record d { active = insert id (suc (count_of id d)) d.active }

-- `Get`, whether it succeeds and what the driver is after it. A layer without parents is not mounted.
unfoldable pub get : Faults → Str → Driver → Bool × Driver
get f id d = elim (get_parent_ids f id d) [
  | unreadable ↦ (false, d)
  | no_file ↦ (true, counted id d)
  | parents ids ↦
      if not (is_empty ids) && nat_beq (count_of id d) 0
      then (let (ok, d₁) = mount f id d in if ok then (true, counted id d₁) else (false, d₁))
      else (true, counted id d)
]

-- Whether there are lines with parents.
abbrev pub has_parents : Parents → Bool
has_parents no_file = false
has_parents unreadable = false
has_parents (parents ids) = not (is_empty ids)

unfoldable pub put : Faults → Str → Driver → Driver
put f id d =
    if ltb 1 (count_of id d)
    then record d { active = insert id (count_of id d - 1) d.active }
    else let d₁ = if has_parents (get_parent_ids f id d) then (unmount f id d).1 else d in
      record d₁ { active = delete id d₁.active }

-- `Remove`: the counts stay.
unfoldable pub remove_layer : Faults → Str → Driver → Bool × Driver
remove_layer f id d =
    let (ok, d₁) = unmount f id d in
    if not ok || f.rename_fails || f.remove_fails
    then (false, d₁)
    else (true, record d₁ { layers = delete id d₁.layers })
