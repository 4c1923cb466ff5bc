-- ===== src/DeviceSet/Tests.antt =====
-- Runs on concrete inputs of the device set.
use docker_analysis.Base.{
  ◌≡◌, Bool, true, false, List, [], ◌∷◌, ◌++◌, Option, none, some, Str, codes, str_eq, refl, arith,
}
use docker_analysis.Base.Keys.{contains, add, remove}
use docker_analysis.Base.Dict.{lookup, insert, delete}
use docker_analysis.DeviceSet.{
  DevInfo, DeviceSet, Faults, add_device, snap_device, register_device, save_metadata,
  delete_device, remove_device, mount_device, mount_info, unmount_device, unmount_info,
  lookup_device, load_metadata, not_mounted,
}
use docker_analysis.DeviceSet.BaseImage.{
  SetupFaults, setup_base_image, create_base, initialize_base,
}
use docker_analysis.DeviceSet.MountTable.{Call, mount, unmount, mounts_at, after_calls}
use docker_analysis.DeviceSet.Match.{Matches}
use docker_analysis.DeviceSet.Mounts.{after_calls-Matches}
use docker_analysis.DeviceSet.Stuck.{unmount_stuck}

abbrev no_faults : Faults
no_faults = record {
  snap_id = some 7;
  save_fails = false;
  set_transaction_fails = false;
  remove_fails = false;
  delete_fails = false;
  remove_metadata_fails = false;
  activate_fails = false;
  mount_fails = false;
  unmount_fails = false;
  deactivate_fails = false;
}

abbrev base_info : DevInfo
base_info = record {
  device_id = 0;
  size = 10;
  transaction_id = 1;
  initialized = true;
  mount_count = 0;
  mount_path = [];
}

abbrev base_set : DeviceSet
base_set = record {
  devices = (codes "a", base_info) ∷ [];
  transaction_id = 1;
  new_transaction_id = 1;
  next_device_id = 1;
  files = [];
  pool = 0 ∷ [];
  mounted = [];
}

abbrev path_of : Str → Str
path_of h = codes "/m/" ++ h

own : (h j : Str) → path_of h ≡ path_of j → h ≡ j
own h j e = ground arith

base_set-Matches : Matches path_of own base_set
unfolding lookup mounts_at
base_set-Matches = record {
  counts = λ h. ground arith;
  paths = λ h info e pos. absurd (ground arith);
  saved = λ file. refl;
}

abbrev failing_mount : Faults
failing_mount = record no_faults { mount_fails = true }

abbrev mounts_and_unmounts : List (Faults × Call)
mounts_and_unmounts =
    (failing_mount, mount (codes "a") (codes "/m/a"))
    ∷ (no_faults, mount (codes "a") (codes "/m/a"))
    ∷ (no_faults, mount (codes "a") (codes "/m/a"))
    ∷ (no_faults, unmount (codes "a"))
    ∷ []

after_calls-Matches_example : Matches path_of own (after_calls mounts_and_unmounts base_set)
after_calls-Matches_example =
    after_calls-Matches path_of own mounts_and_unmounts base_set (refl, (refl, (refl, (refl, tt))))
      base_set-Matches

still_mounted : (after_calls mounts_and_unmounts base_set).mounted ≡ (codes "/m/a", codes "a") ∷ []
unfolding mount_device unmount_device mount_info unmount_info lookup_device lookup insert
    docker_analysis.Base.str_beq
still_mounted = refl

abbrev mounted_info : DevInfo
mounted_info = record base_info { mount_count = 1; mount_path = codes "/m/a" }

abbrev mounted_set : DeviceSet
mounted_set = record base_set {
  devices = (codes "a", mounted_info) ∷ [];
  mounted = (codes "/m/a", codes "a") ∷ [];
}

abbrev failing_unmount : Faults
failing_unmount = record no_faults { unmount_fails = true }

abbrev stuck_set : DeviceSet
stuck_set = (unmount_device failing_unmount (codes "a") mounted_set).1

stuck_device :
    (stuck_set.mounted ≡ mounted_set.mounted)
    × ((unmount_device no_faults (codes "a") stuck_set).0 ≡ some not_mounted)
    × ((unmount_device no_faults (codes "a") stuck_set).1 ≡ stuck_set)
unfolding lookup docker_analysis.Base.str_beq
stuck_device =
    unmount_stuck failing_unmount no_faults (codes "a") mounted_info mounted_set refl refl refl

-- A snapshot takes the number that the kernel found, and is deleted again.
added_and_deleted :
    (delete_device no_faults
      (codes "b")
      (add_device no_faults (codes "b") (codes "a") base_set).1).1.pool
    ≡ 0 ∷ []
unfolding add_device snap_device register_device save_metadata delete_device remove_device
    lookup_device load_metadata lookup insert delete add remove contains
    docker_analysis.Base.str_beq
added_and_deleted = refl

abbrev no_setup_faults : SetupFaults
no_setup_faults = record {
  removal = no_faults;
  created = some 3;
  registering = no_faults;
  format_fails = false;
  saving = no_faults;
}

abbrev empty_set : DeviceSet
empty_set = record base_set { devices = []; pool = [] }

-- The base device has the number that the kernel found, and is saved under its own name.
base_saved :
    (lookup (codes "base") (setup_base_image no_setup_faults 10 empty_set).1.files
      ≡ some (record base_info { device_id = 3; transaction_id = 2 }))
    × ((setup_base_image no_setup_faults 10 empty_set).1.next_device_id ≡ 4)
unfolding setup_base_image create_base initialize_base register_device save_metadata lookup_device
    load_metadata lookup insert add contains docker_analysis.Base.str_beq
base_saved = (refl, refl)
