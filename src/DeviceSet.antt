-- ===== src/DeviceSet.antt =====
-- daemon/graphdriver/devmapper/deviceset.go: the devices of the pool, their metadata and mounts.
-- What the kernel, the file system and libdevmapper answer in a call is an argument. A call of an
-- entry point is one step.
pub mod BaseImage
pub mod Driver
pub mod MountTable
pub mod Match
pub mod Mounts
pub mod Stuck
mod Tests
use docker_analysis.Base.{
  ℕ, zero, suc, ◌%◌, Bool, true, false, List, [], ◌∷◌, Option, none, some, if◌then◌else◌, ◌==◌,
  str_eq, nat_eq, Str, codes, is_empty, leb, nat_beq,
}
use docker_analysis.Base.Dict.{lookup, insert, delete}
use docker_analysis.Base.Keys.{add, remove}

pub record DevInfo : Type 0 where
  pub device_id : ℕ
  pub size : ℕ
  pub transaction_id : ℕ
  pub initialized : Bool
  pub mount_count : ℕ
  pub mount_path : Str

-- `files` are the metadata files, `pool` the devices of the thin pool by number, and `mounted` the
-- mounts of the kernel, each a path and the device that is mounted there, the newest first.
pub record DeviceSet : Type 0 where
  pub devices : List (Str × DevInfo)
  pub transaction_id : ℕ
  pub new_transaction_id : ℕ
  pub next_device_id : ℕ
  pub files : List (Str × DevInfo)
  pub pool : List ℕ
  pub mounted : List (Str × Str)

-- What fails in a call. `snap_id` is the number that the kernel took for a snapshot: the first free
-- one from the number that was asked for.
pub record Faults : Type 0 where
  pub snap_id : Option ℕ
  pub save_fails : Bool
  pub set_transaction_fails : Bool
  pub remove_fails : Bool
  pub delete_fails : Bool
  pub remove_metadata_fails : Bool
  pub activate_fails : Bool
  pub mount_fails : Bool
  pub unmount_fails : Bool
  pub deactivate_fails : Bool

pub data DeviceError : Type 0 where
  unknown_device device_exists not_snapped not_saved not_set not_removed not_deleted : DeviceError
  metadata_kept in_two_places not_activated not_mounted not_unmounted not_deactivated : DeviceError
  not_created not_formatted : DeviceError

abbrev pub metadata_file : Str → Str
metadata_file hash = if is_empty hash then codes "base" else hash

-- The name of a device of the kernel, without the prefix that all of them have.
abbrev pub device_name : Str → Str
device_name hash = if is_empty hash then codes "base" else hash

abbrev pub allocate_transaction_id : DeviceSet → DeviceSet
allocate_transaction_id s = record s { new_transaction_id = suc s.new_transaction_id }

-- `saveMetadata`: the counts and the path of a mount are not saved.
unfoldable pub save_metadata : Faults → Str → DevInfo → DeviceSet → Option DeviceError × DeviceSet
save_metadata f hash info s =
    if f.save_fails
    then (some not_saved, s)
    else let saved = record info { mount_count = 0; mount_path = [] } in
      let s' = record s { files = insert (metadata_file hash) saved s.files } in
      if nat_beq s.new_transaction_id s.transaction_id
      then (none, s')
      else if f.set_transaction_fails
      then (some not_set, s')
      else (none, record s' { transaction_id = s.new_transaction_id })

-- `loadMetadata`: a device of a later transaction was lost.
unfoldable pub load_metadata : Str → DeviceSet → Option DevInfo
load_metadata hash s = elim (lookup (metadata_file hash) s.files) [
  | none ↦ none
  | some info ↦ if leb info.transaction_id s.transaction_id then some info else none
]

unfoldable pub lookup_device : Str → DeviceSet → Option DevInfo × DeviceSet
unfolding load_metadata
lookup_device hash s = elim (lookup hash s.devices) [
  | some info ↦ (some info, s)
  | none ↦ elim (load_metadata hash s) [
    | none ↦ (none, s)
    | some info ↦ (some info, record s { devices = insert hash info s.devices })
  ]
]

abbrev pub new_info : ℕ → ℕ → DeviceSet → DevInfo
new_info id size s = record {
  device_id = id;
  size = size;
  transaction_id = suc s.new_transaction_id;
  initialized = false;
  mount_count = 0;
  mount_path = [];
}

unfoldable pub register_device : Faults → ℕ → Str → ℕ → DeviceSet → Option DeviceError × DeviceSet
unfolding save_metadata
register_device f id hash size s =
    let info = new_info id size s in
    let s₁ = record (allocate_transaction_id s) { devices = insert hash info s.devices } in
    let (e, s₂) = save_metadata f hash info s₁ in
    elim e [
      | none ↦ (none, s₂)
      | some err ↦ (some err, record s₂ { devices = delete hash s₂.devices })
    ]

-- `AddDevice` after the look-up of its base: identifiers have 24 bits.
unfoldable pub snap_device : Faults → Str → DevInfo → DeviceSet → Option DeviceError × DeviceSet
unfolding register_device
snap_device f hash base s = elim f.snap_id [
  | none ↦ (some not_snapped, s)
  | some id ↦
      let s₁ = record s { pool = add id s.pool; next_device_id = suc id % 0x100_0000 } in
      let (e, s₂) = register_device f id hash base.size s₁ in
      elim e [
        | none ↦ (none, s₂)
        | some err ↦
            (some err, if f.delete_fails then s₂ else record s₂ { pool = remove id s₂.pool })
      ]
]

unfoldable pub add_device : Faults → Str → Str → DeviceSet → Option DeviceError × DeviceSet
unfolding lookup_device snap_device
add_device f hash base_hash s =
    let (base, s₁) = lookup_device base_hash s in
    elim base [
      | none ↦ (some unknown_device, s₁)
      | some info ↦
          let (there, s₂) = lookup_device hash s₁ in
          elim there [ some _ ↦ (some device_exists, s₂) | none ↦ snap_device f hash info s₂ ]
    ]

-- `deleteDevice` without the discarding of blocks, whose errors are ignored.
unfoldable pub remove_device : Faults → Str → DevInfo → DeviceSet → Option DeviceError × DeviceSet
remove_device f hash info s =
    if f.remove_fails
    then (some not_removed, s)
    else if f.delete_fails
    then (some not_deleted, s)
    else let s₁ = record (allocate_transaction_id s) { pool = remove info.device_id s.pool } in
      if f.remove_metadata_fails
      then (some metadata_kept, record s₁ { devices = insert hash info (delete hash s.devices) })
      else (
        none,
        record s₁ { devices = delete hash s.devices; files = delete (metadata_file hash) s.files },
      )

unfoldable pub delete_device : Faults → Str → DeviceSet → Option DeviceError × DeviceSet
unfolding lookup_device remove_device
delete_device f hash s =
    let (there, s₁) = lookup_device hash s in
    elim there [ none ↦ (some unknown_device, s₁) | some info ↦ remove_device f hash info s₁ ]

-- `syscall.Unmount` takes away the newest mount at the path.
unfoldable pub unmount_path : Str → List (Str × Str) → List (Str × Str)
unmount_path p [] = []
unmount_path p ((q, d) ∷ m) = let rest = unmount_path p m in if q == p then m else (q, d) ∷ rest

abbrev pub put_info : Str → DevInfo → DeviceSet → DeviceSet
put_info hash info s = record s { devices = insert hash info s.devices }

-- `MountDevice` of a device that was looked up.
unfoldable pub mount_info :
    Faults → Str → Str → DevInfo → DeviceSet → Option DeviceError × DeviceSet
mount_info f hash path info s = elim info.mount_count [
  | suc n ↦
      if path == info.mount_path
      then (none, put_info hash (record info { mount_count = suc (suc n) }) s)
      else (some in_two_places, s)
  | zero ↦
      if f.activate_fails
      then (some not_activated, s)
      else if f.mount_fails
      then (some not_mounted, s)
      else (
        none,
        record (put_info hash (record info { mount_count = 1; mount_path = path }) s) {
          mounted = (path, device_name hash) ∷ s.mounted;
        },
      )
]

unfoldable pub mount_device : Faults → Str → Str → DeviceSet → Option DeviceError × DeviceSet
unfolding lookup_device mount_info
mount_device f hash path s =
    let (there, s₁) = lookup_device hash s in
    elim there [ none ↦ (some unknown_device, s₁) | some info ↦ mount_info f hash path info s₁ ]

-- `UnmountDevice` of a device that was looked up: the count goes down before the kernel is asked.
unfoldable pub unmount_info : Faults → Str → DevInfo → DeviceSet → Option DeviceError × DeviceSet
unmount_info f hash info s = elim info.mount_count [
  | zero ↦ (some not_mounted, s)
  | suc zero ↦
      let s₁ = put_info hash (record info { mount_count = 0 }) s in
      if f.unmount_fails
      then (some not_unmounted, s₁)
      else let s₂ = record s₁ { mounted = unmount_path info.mount_path s.mounted } in
        if f.deactivate_fails then (some not_deactivated, s₂) else (
          none,
          record s₂ {
            devices = insert hash (record info { mount_count = 0; mount_path = [] }) s.devices;
          },
        )
  | suc (suc n) ↦ (none, put_info hash (record info { mount_count = suc n }) s)
]

unfoldable pub unmount_device : Faults → Str → DeviceSet → Option DeviceError × DeviceSet
unfolding lookup_device unmount_info
unmount_device f hash s =
    let (there, s₁) = lookup_device hash s in
    elim there [ none ↦ (some unknown_device, s₁) | some info ↦ unmount_info f hash info s₁ ]

unfoldable pub has_device : Str → DeviceSet → Bool × DeviceSet
unfolding lookup_device
has_device hash s =
    let (there, s₁) = lookup_device hash s in
    elim there [ none ↦ (false, s₁) | some _ ↦ (true, s₁) ]
