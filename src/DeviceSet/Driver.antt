-- ===== src/DeviceSet/Driver.antt =====
-- daemon/graphdriver/devmapper/driver.go: the storage driver over the set of devices. `join` stands
-- for path.Join.
use docker_analysis.Base.{
  Bool, false, List, [], ◌∷◌, Option, none, some, if◌then◌else◌, Str, codes, Option-cases,
  Bool-cases, inl, inr, refl, ◌≡◌,
}
use docker_analysis.DeviceSet.{
  DeviceSet, Faults, DeviceError, add_device, delete_device, mount_device, unmount_device,
  has_device,
}
use docker_analysis.DeviceSet.Match.{Matches}
use docker_analysis.DeviceSet.Mounts.{mount_device-Matches, unmount_device-Matches}

-- What fails in the directory of a mount. `unmounting` is what fails in the unmount of a failed `Get`.
pub record DirFaults : Type 0 where
  pub make_fails : Bool
  pub rootfs_fails : Bool
  pub has_id_file : Bool
  pub id_file_fails : Bool
  pub remove_fails : Bool
  pub unmounting : Faults

pub data DriverError : Type 0 where
  directory_error : DriverError
  device_error : DeviceError → DriverError

module _ (join : List Str → Str) (home : Str) where
  abbrev pub mount_point : Str → Str
  mount_point id = join (home ∷ codes "mnt" ∷ id ∷ [])

  abbrev pub driver_exists : Str → DeviceSet → Bool × DeviceSet
  driver_exists id s = has_device id s

  abbrev pub create : Faults → Str → Str → DeviceSet → Option DeviceError × DeviceSet
  create f id parent s = add_device f id parent s

  -- A device that is not there counts as removed.
  unfoldable pub remove_layer :
      Faults → DirFaults → Str → DeviceSet → Option DriverError × DeviceSet
  remove_layer f d id s =
      let (there, s₁) = has_device id s in
      if there
      then (let (e, s₂) = delete_device f id s₁ in
          elim e [
            | some err ↦ (some (device_error err), s₂)
            | none ↦ (if d.remove_fails then some directory_error else none, s₂)
          ])
      else (none, s₁)

  unfoldable pub fill_mount : DirFaults → Str → DeviceSet → Option Str × DeviceSet
  fill_mount d id s =
      let undone = (unmount_device d.unmounting id s).1 in
      if d.rootfs_fails
      then (none, undone)
      else if d.has_id_file
      then (some (join (mount_point id ∷ codes "rootfs" ∷ [])), s)
      else if d.id_file_fails
      then (none, undone)
      else (some (join (mount_point id ∷ codes "rootfs" ∷ [])), s)

  -- `Get`: the root file system of a layer.
  unfoldable pub get_layer : Faults → DirFaults → Str → DeviceSet → Option Str × DeviceSet
  get_layer f d id s =
      if d.make_fails
      then (none, s)
      else let (e, s₁) = mount_device f id (mount_point id) s in
        elim e [ some _ ↦ (none, s₁) | none ↦ fill_mount d id s₁ ]

  -- `Put`: the error of the unmount is logged only.
  abbrev pub put_layer : Faults → Str → DeviceSet → DeviceSet
  put_layer f id s = (unmount_device f id s).1

  -- `join` gives each layer a path of its own.
  module _ (own : (h j : Str) → mount_point h ≡ mount_point j → h ≡ j) where
    fill_mount-Matches :
        (d : DirFaults) (id : Str) (s : DeviceSet)
        → d.unmounting.unmount_fails ≡ false
        → Matches mount_point own s
        → Matches mount_point own (fill_mount d id s).1
    unfolding fill_mount
    fill_mount-Matches d id s works m =
        let m₁ = unmount_device-Matches mount_point own d.unmounting id s works m in
        elim (Bool-cases d.rootfs_fails) [
          | inl r ↦ rw (fill_mount, r) m₁
          | inr r ↦ elim (Bool-cases d.has_id_file) [
            | inl h ↦ rw (fill_mount, r, h) m
            | inr h ↦ elim (Bool-cases d.id_file_fails) [
              | inl w ↦ rw (fill_mount, r, h, w) m₁
              | inr w ↦ rw (fill_mount, r, h, w) m
            ]
          ]
        ]

    -- A `Get`, whether it succeeds or not, keeps the mounts at the paths of the layers as their counts
    -- say, where the unmount after a failure does not fail in the kernel.
    get_layer-Matches :
        (f : Faults) (d : DirFaults) (id : Str) (s : DeviceSet)
        → d.unmounting.unmount_fails ≡ false
        → Matches mount_point own s
        → Matches mount_point own (get_layer f d id s).1
    unfolding get_layer
    get_layer-Matches f d id s undoes m =
        let m₁ = mount_device-Matches mount_point own f id (mount_point id) s refl m in
        elim (Bool-cases d.make_fails) [
          | inl k ↦ rw (get_layer, k) m
          | inr k ↦ elim (Option-cases (mount_device f id (mount_point id) s).0) [
            | inl e ↦
                rw (get_layer, k, e)
                  (fill_mount-Matches d id (mount_device f id (mount_point id) s).1 undoes m₁)
            | inr (err, e) ↦ rw (get_layer, k, e) m₁
          ]
        ]
