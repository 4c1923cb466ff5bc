-- ===== src/DeviceSet/BaseImage.antt =====
-- setupBaseImage of daemon/graphdriver/devmapper/deviceset.go.
use docker_analysis.Base.{
  ℕ, suc, ◌%◌, ◌≡◌, Bool, true, false, [], Option, none, some, if◌then◌else◌, str_eq, nat_eq, Str,
  arith, Option-cases, inl, inr, eq_refl,
}
use docker_analysis.Base.Dict.{lookup, lookup-insert}
use docker_analysis.Base.Keys.{add, remove}
use docker_analysis.DeviceSet.{
  DevInfo, DeviceSet, Faults, DeviceError, lookup_device, remove_device, register_device,
  save_metadata, put_info, new_info, not_created, not_activated, not_formatted,
}

-- What fails in the set-up: the removal of an old device, the creation of the new one with the number
-- that the kernel took for it, and what is done to the new device.
pub record SetupFaults : Type 0 where
  pub removal : Faults
  pub created : Option ℕ
  pub registering : Faults
  pub format_fails : Bool
  pub saving : Faults

-- The device gets its file system, and is saved as initialized.
unfoldable pub initialize_base : SetupFaults → DevInfo → DeviceSet → Option DeviceError × DeviceSet
initialize_base f info s =
    if f.registering.activate_fails
    then (some not_activated, s)
    else if f.format_fails
    then (some not_formatted, s)
    else let now = record info { initialized = true } in
      let (e, s₁) = save_metadata f.saving [] now (put_info [] now s) in
      elim e [ none ↦ (none, s₁) | some err ↦ (some err, put_info [] info s₁) ]

unfoldable pub create_base : SetupFaults → ℕ → DeviceSet → Option DeviceError × DeviceSet
create_base f base_size s = elim f.created [
  | none ↦ (some not_created, s)
  | some id ↦
      let s₁ = record s { pool = add id s.pool; next_device_id = suc id % 0x100_0000 } in
      let (e, s₂) = register_device f.registering id [] base_size s₁ in
      elim e [
        | none ↦ initialize_base f (new_info id base_size s₁) s₂
        | some err ↦ (
          some err,
          if f.registering.delete_fails then s₂ else record s₂ { pool = remove id s₂.pool },
        )
      ]
]

-- `setupBaseImage`: a base device that was not initialized is removed first.
unfoldable pub setup_base_image : SetupFaults → ℕ → DeviceSet → Option DeviceError × DeviceSet
setup_base_image f base_size s =
    let (old, s₁) = lookup_device [] s in
    elim old [
      | none ↦ create_base f base_size s₁
      | some info ↦
          if info.initialized
          then (none, s₁)
          else let (e, s₂) = remove_device f.removal [] info s₁ in
            elim e [ none ↦ create_base f base_size s₂ | some err ↦ (some err, s₂) ]
    ]

-- The set has an initialized base device.
abbrev is_initialized : Option DevInfo → Bool
is_initialized none = false
is_initialized (some info) = info.initialized

devices-save_metadata :
    (f : Faults) (hash : Str) (info : DevInfo) (s : DeviceSet)
    → (save_metadata f hash info s).1.devices ≡ s.devices
unfolding save_metadata
devices-save_metadata f hash info s = ground arith

lookup_device-there :
    (hash : Str) (info : DevInfo) (s : DeviceSet)
    → (lookup_device hash s).0 ≡ some info
    → lookup hash (lookup_device hash s).1.devices ≡ some info
unfolding lookup_device
lookup_device-there hash info s e =
    ground (arith, e, lookup-insert hash hash info s.devices, eq_refl hash)

initialize_base-is_initialized :
    (f : SetupFaults) (info : DevInfo) (s : DeviceSet)
    → (initialize_base f info s).0 ≡ none
    → is_initialized (lookup [] (initialize_base f info s).1.devices) ≡ true
unfolding initialize_base
initialize_base-is_initialized f info s e =
    let now = record info { initialized = true } in
    ground (
      arith,
      e,
      devices-save_metadata f.saving [] now (put_info [] now s),
      lookup-insert [] [] now s.devices,
      eq_refl {A = Str} [],
    )

create_base-is_initialized :
    (f : SetupFaults) (size : ℕ) (s : DeviceSet)
    → (create_base f size s).0 ≡ none
    → is_initialized (lookup [] (create_base f size s).1.devices) ≡ true
unfolding create_base
create_base-is_initialized f size s e = elim (Option-cases f.created) [
  | inl c ↦ absurd (ground (arith, e, c))
  | inr (id, c) ↦
      let s₁ = record s { pool = add id s.pool; next_device_id = suc id % 0x100_0000 } in
      let r = register_device f.registering id [] size s₁ in
      ground (arith, e, c, initialize_base-is_initialized f (new_info id size s₁) r.1)
]

-- When the set-up of the base device reports no error, the set has an initialized base device,
-- whatever it had before.
setup_base_image-is_initialized :
    (f : SetupFaults) (size : ℕ) (s : DeviceSet)
    → (setup_base_image f size s).0 ≡ none
    → is_initialized (lookup [] (setup_base_image f size s).1.devices) ≡ true
unfolding setup_base_image
setup_base_image-is_initialized f size s e = elim (Option-cases (lookup_device [] s).0) [
  | inl o ↦ ground (arith, e, o, create_base-is_initialized f size (lookup_device [] s).1)
  | inr (info, o) ↦
      let s₁ = (lookup_device [] s).1 in
      ground (
        arith,
        e,
        o,
        lookup_device-there [] info s o,
        create_base-is_initialized f size (remove_device f.removal [] info s₁).1,
      )
]
