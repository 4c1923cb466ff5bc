-- ===== src/DeviceSet/Stuck.antt =====
-- A device whose last unmount failed.
use docker_analysis.Base.{◌≡◌, true, some, str_eq, Str, arith, refl, ap, ◌∙◌, eq_refl}
use docker_analysis.Base.Dict.{lookup, lookup-insert}
use docker_analysis.DeviceSet.{
  DevInfo, DeviceSet, Faults, lookup_device, unmount_info, unmount_device, put_info, not_mounted,
  not_unmounted,
}

lookup_device-there :
    (hash : Str) (info : DevInfo) (s : DeviceSet)
    → lookup hash s.devices ≡ some info
    → lookup_device hash s ≡ (some info, s)
unfolding lookup_device
lookup_device-there hash info s e = rw (lookup_device, e) refl

unmount_device-there :
    (f : Faults) (hash : Str) (info : DevInfo) (s : DeviceSet)
    → lookup hash s.devices ≡ some info
    → unmount_device f hash s ≡ unmount_info f hash info s
unfolding unmount_device
unmount_device-there f hash info s e =
    let found = lookup_device-there hash info s e in rw (unmount_device, found, found) refl

unmount_failed :
    (f : Faults) (hash : Str) (info : DevInfo) (s : DeviceSet)
    → lookup hash s.devices ≡ some info
    → info.mount_count ≡ 1
    → f.unmount_fails ≡ true
    → unmount_device f hash s
      ≡ (some not_unmounted, put_info hash (record info { mount_count = 0 }) s)
unfolding unmount_info
unmount_failed f hash info s e c fails =
    rw (unmount_device-there f hash info s e, unmount_info, c, fails) refl

unmount_refused :
    (f : Faults) (hash : Str) (info : DevInfo) (s : DeviceSet)
    → lookup hash s.devices ≡ some info
    → info.mount_count ≡ 0
    → unmount_device f hash s ≡ (some not_mounted, s)
unfolding unmount_info
unmount_refused f hash info s e c = rw (unmount_device-there f hash info s e, unmount_info, c) refl

-- When the last unmount of a device fails in the kernel, the mounts stay while its count is 0:
-- unmounting again is refused, and changes nothing.
pub unmount_stuck :
    (f g : Faults) (hash : Str) (info : DevInfo) (s : DeviceSet)
    → lookup hash s.devices ≡ some info
    → info.mount_count ≡ 1
    → f.unmount_fails ≡ true
    → ((unmount_device f hash s).1.mounted ≡ s.mounted)
      × ((unmount_device g hash (unmount_device f hash s).1).0 ≡ some not_mounted)
      × ((unmount_device g hash (unmount_device f hash s).1).1 ≡ (unmount_device f hash s).1)
unmount_stuck f g hash info s e c fails =
    let stuck = record info { mount_count = 0 } in
    let there : lookup hash (put_info hash stuck s).devices ≡ some stuck =
      lookup-insert hash hash stuck s.devices ∙ ground (arith, eq_refl hash) in
    let first = unmount_failed f hash info s e c fails in
    let second = unmount_refused g hash stuck (put_info hash stuck s) there refl in
    rw first (refl, ap (λ r. r.0) second, ap (λ r. r.1) second)
