-- ===== src/AufsDriver/Laws.antt =====
-- The counts of the layers against what the kernel has mounted.
use docker_analysis.Base.{
  suc, ◌-◌, ◌≡◌, Bool, false, ◌&&◌, not, none, some, str_eq, Str, is_empty, ltb, arith,
}
use docker_analysis.Base.Dict.{lookup, lookup-insert, lookup-delete}
use docker_analysis.Base.Keys.{contains, contains-add, contains-remove}
use docker_analysis.AufsDriver.{
  Driver, Faults, non_empty_lines, get_parent_ids, count_of, mount, unmount, get, put,
}

-- Nothing fails that a call does not report.
abbrev Answers : Faults → Type 0
Answers f = (f.read_fails ≡ false) × (f.mounted_fails ≡ false) × (f.unmount_fails ≡ false)

abbrev has_layers : Str → Driver → Bool
has_layers id d = elim (lookup id d.layers) [
  | none ↦ false
  | some ls ↦ not (is_empty (non_empty_lines ls))
]

-- Exactly the layers with parents and a count above 0 are mounted.
abbrev Matches : Driver → Type 0
Matches d = (h : Str) → contains d.mounted h ≡ (has_layers h d && ltb 0 (count_of h d))

get-Matches : (f : Faults) (id : Str) (d : Driver) → Answers f → Matches d → Matches (get f id d).1
unfolding get mount get_parent_ids
get-Matches f id d (reads, looks, works) m h = ground (
  arith,
  reads,
  looks,
  m h,
  m id,
  str_eq.beq_iff id h,
  contains-add id h d.mounted,
  lookup-insert id h (suc (count_of id d)) d.active,
)

put-Matches : (f : Faults) (id : Str) (d : Driver) → Answers f → Matches d → Matches (put f id d)
unfolding put unmount get_parent_ids
put-Matches f id d (reads, looks, works) m h = ground (
  arith,
  reads,
  looks,
  works,
  m h,
  m id,
  str_eq.beq_iff id h,
  contains-remove id h d.mounted,
  lookup-delete id h d.active,
  lookup-insert id h (count_of id d - 1) d.active,
)
