-- ===== src/DeviceSet/MountTable.antt =====
-- The mounts of the kernel by their paths, and histories of calls.
use docker_analysis.Base.{
  ℕ, zero, suc, ◌≡◌, ◌⊎◌, Bool, false, List, [], ◌∷◌, Option, none, some, if◌then◌else◌, ◌==◌,
  str_eq, str_beq_iff, Str, ltb, arith, refl, inl, inr,
}
use docker_analysis.DeviceSet.{
  DevInfo, DeviceSet, Faults, mount_device, unmount_device, device_name, unmount_path,
}

abbrev pub is_mounted : Option DevInfo → Bool
is_mounted none = false
is_mounted (some info) = ltb 0 info.mount_count

-- The devices that the kernel has mounted at a path, the newest first.
unfoldable pub mounts_at : Str → List (Str × Str) → List Str
mounts_at p [] = []
mounts_at p ((q, d) ∷ m) = let rest = mounts_at p m in if q == p then d ∷ rest else rest

-- What is to be mounted at the path of a device with that entry.
abbrev pub expected : Str → Option DevInfo → List Str
expected h o = if is_mounted o then device_name h ∷ [] else []

abbrev pub without_newest : List Str → List Str
without_newest [] = []
without_newest (d ∷ ds) = ds

pub mounts_at-unmount_path :
    (p q : Str) (m : List (Str × Str))
    → mounts_at p (unmount_path q m)
      ≡ (if q == p then without_newest (mounts_at p m) else mounts_at p m)
unfolding mounts_at unmount_path
mounts_at-unmount_path p q [] = ground arith
mounts_at-unmount_path p q ((r, d) ∷ m) =
    ground (arith, mounts_at-unmount_path p q m, str_beq_iff r q, str_beq_iff r p, str_beq_iff q p)

pub Nat-cases : (n : ℕ) → (n ≡ 0) ⊎ ((k : ℕ) × (n ≡ suc k))
Nat-cases zero = inl refl
Nat-cases (suc k) = inr (k, refl)

pub data Call : Type 0 where
  mount : Str → Str → Call
  unmount : Str → Call

abbrev pub after_call : Faults → Call → DeviceSet → DeviceSet
after_call f (mount hash path) s = (mount_device f hash path s).1
after_call f (unmount hash) s = (unmount_device f hash s).1

abbrev pub after_calls : List (Faults × Call) → DeviceSet → DeviceSet
after_calls [] s = s
after_calls ((f, c) ∷ rest) s = after_calls rest (after_call f c s)
