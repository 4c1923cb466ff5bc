-- ===== src/DeviceSet/Mounts.antt =====
-- The counts of the mounts against what the kernel has mounted.
use docker_analysis.Base.{
  zero, suc, ◌≡◌, false, List, [], ◌∷◌, some, if◌then◌else◌, ◌==◌, str_eq, str_beq_iff, Str, arith,
  ap, ◌∙◌, sym, Option-cases, Bool-cases, inl, inr,
}
use docker_analysis.Base.Dict.{lookup}
use docker_analysis.DeviceSet.{
  DevInfo, DeviceSet, Faults, lookup_device, mount_info, mount_device, unmount_info, unmount_device,
  device_name, unmount_path,
}
use docker_analysis.DeviceSet.MountTable.{
  mounts_at, mounts_at-unmount_path, Nat-cases, Call, mount, unmount, after_call, after_calls,
}
use docker_analysis.DeviceSet.Match.{
  Matches, path_beq, Matches-put_info, Looked-lookup_device, recounted,
}

-- Each device has a path of its own.
module _ (path_of : Str → Str) (own : (h j : Str) → path_of h ≡ path_of j → h ≡ j) where
  first_mount :
      (hash path : Str) (info : DevInfo) (s : DeviceSet) (j : Str)
      → path ≡ path_of hash
      → mounts_at (path_of hash) s.mounted ≡ []
      → mounts_at (path_of j) ((path, device_name hash) ∷ s.mounted)
        ≡ (if hash == j then device_name hash ∷ [] else mounts_at (path_of j) s.mounted)
  unfolding mounts_at
  first_mount hash path info s j place none_there =
      let at_j : (path == path_of j) ≡ (hash == j) =
        ap (λ p. p == path_of j) place ∙ path_beq path_of own hash j in
      elim (Bool-cases (hash == j)) [
        | inl e ↦
            let same : hash ≡ j = (str_beq_iff hash j).0 e in
            let none_at_j : mounts_at (path_of j) s.mounted ≡ [] =
              ap (λ k. mounts_at (path_of k) s.mounted) (sym same) ∙ none_there in
            ground (arith, e, at_j, none_at_j)
        | inr e ↦ ground (arith, e, at_j)
      ]

  mount_info-Matches :
      (f : Faults) (hash path : Str) (info : DevInfo) (s : DeviceSet)
      → path ≡ path_of hash
      → Matches path_of own s
      → lookup hash s.devices ≡ some info
      → Matches path_of own (mount_info f hash path info s).1
  unfolding mount_info
  mount_info-Matches f hash path info s place m e = elim (Nat-cases info.mount_count) [
    | inr (n, c) ↦ elim (Bool-cases (path == info.mount_path)) [
      | inl p ↦ rw (mount_info, c, p) (recounted path_of own hash info n (suc n) s m e c)
      | inr p ↦ rw (mount_info, c, p) m
    ]
    | inl c ↦ elim (Bool-cases f.activate_fails) [
      | inl a ↦ rw (mount_info, c, a) m
      | inr a ↦ elim (Bool-cases f.mount_fails) [
        | inl b ↦ rw (mount_info, c, a, b) m
        | inr b ↦
            let none_there : mounts_at (path_of hash) s.mounted ≡ [] =
              m.counts hash ∙ ground (arith, e, c) in
            rw (mount_info, c, a, b)
              (Matches-put_info path_of own hash
                (record info { mount_count = 1; mount_path = path }) s
                ((path, device_name hash) ∷ s.mounted) m
                (λ j. first_mount hash path info s j place none_there) (λ pos. place))
      ]
    ]
  ]

  last_unmount :
      (hash : Str) (info : DevInfo) (s : DeviceSet) (j : Str)
      → Matches path_of own s
      → lookup hash s.devices ≡ some info
      → info.mount_count ≡ 1
      → mounts_at (path_of j) (unmount_path info.mount_path s.mounted)
        ≡ (if hash == j then [] else mounts_at (path_of j) s.mounted)
  last_unmount hash info s j m e c =
      let place : info.mount_path ≡ path_of hash = m.paths hash info e (ground (arith, c)) in
      let one : mounts_at (path_of hash) s.mounted ≡ device_name hash ∷ [] =
        m.counts hash ∙ ground (arith, e, c) in
      let at_j : (info.mount_path == path_of j) ≡ (hash == j) =
        ap (λ p. p == path_of j) place ∙ path_beq path_of own hash j in
      let after = mounts_at-unmount_path (path_of j) info.mount_path s.mounted in
      elim (Bool-cases (hash == j)) [
        | inl same ↦
            let one_at_j : mounts_at (path_of j) s.mounted ≡ device_name hash ∷ [] =
              ap (λ k. mounts_at (path_of k) s.mounted) (sym ((str_beq_iff hash j).0 same)) ∙ one in
            ground (arith, after, at_j, same, one_at_j)
        | inr other ↦ ground (arith, after, at_j, other)
      ]

  unmount_info-Matches :
      (f : Faults) (hash : Str) (info : DevInfo) (s : DeviceSet)
      → f.unmount_fails ≡ false
      → Matches path_of own s
      → lookup hash s.devices ≡ some info
      → Matches path_of own (unmount_info f hash info s).1
  unfolding unmount_info
  unmount_info-Matches f hash info s works m e = elim (Nat-cases info.mount_count) [
    | inl c ↦ rw (unmount_info, c) m
    | inr (zero, c) ↦
        let left = unmount_path info.mount_path s.mounted in
        elim (Bool-cases f.deactivate_fails) [
          | inl d ↦
              rw (unmount_info, c, works, d)
                (Matches-put_info path_of own hash (record info { mount_count = 0 }) s left m
                  (λ j. last_unmount hash info s j m e c) (λ pos. absurd (ground arith)))
          | inr d ↦
              rw (unmount_info, c, works, d)
                (Matches-put_info path_of own hash
                  (record info { mount_count = 0; mount_path = [] }) s left m
                  (λ j. last_unmount hash info s j m e c) (λ pos. absurd (ground arith)))
        ]
    | inr (suc n, c) ↦ rw (unmount_info, c) (recounted path_of own hash info (suc n) n s m e c)
  ]

  -- No unmount of the kernel fails, and each device is mounted at its own path.
  abbrev pub Orderly : List (Faults × Call) → Type 0
  Orderly [] = Unit
  Orderly ((f, mount hash path) ∷ rest) = (path ≡ path_of hash) × Orderly rest
  Orderly ((f, unmount hash) ∷ rest) = (f.unmount_fails ≡ false) × Orderly rest

  pub mount_device-Matches :
      (f : Faults) (hash path : Str) (s : DeviceSet)
      → path ≡ path_of hash
      → Matches path_of own s
      → Matches path_of own (mount_device f hash path s).1
  unfolding mount_device
  mount_device-Matches f hash path s place m =
      let (m₁, e) = Looked-lookup_device path_of own hash s m in
      elim (Option-cases (lookup_device hash s).0) [
        | inl g ↦ rw (mount_device, g) m₁
        | inr (info, g) ↦
            rw (mount_device, g)
              (mount_info-Matches f hash path info (lookup_device hash s).1 place m₁ (e ∙ g))
      ]

  pub unmount_device-Matches :
      (f : Faults) (hash : Str) (s : DeviceSet)
      → f.unmount_fails ≡ false
      → Matches path_of own s
      → Matches path_of own (unmount_device f hash s).1
  unfolding unmount_device
  unmount_device-Matches f hash s works m =
      let (m₁, e) = Looked-lookup_device path_of own hash s m in
      elim (Option-cases (lookup_device hash s).0) [
        | inl g ↦ rw (unmount_device, g) m₁
        | inr (info, g) ↦
            rw (unmount_device, g)
              (unmount_info-Matches f hash info (lookup_device hash s).1 works m₁ (e ∙ g))
      ]

  -- As long as no unmount of the kernel fails, and each device is mounted only at a path of its own,
  -- every history of mounts and unmounts, whatever else fails in it, keeps this: at the path of a
  -- device with a count above 0 that device is mounted once and nothing else, and nothing is mounted
  -- at the path of any other device, if it held before the history, the path of each mounted device
  -- was on record, and no metadata file has a count.
  pub after_calls-Matches :
      (calls : List (Faults × Call)) (s : DeviceSet)
      → Orderly calls
      → Matches path_of own s
      → Matches path_of own (after_calls calls s)
  after_calls-Matches [] s orderly m = m
  after_calls-Matches ((f, mount hash path) ∷ rest) s (place, orderly) m =
      after_calls-Matches rest (after_call f (mount hash path) s) orderly
        (mount_device-Matches f hash path s place m)
  after_calls-Matches ((f, unmount hash) ∷ rest) s (works, orderly) m =
      after_calls-Matches rest (after_call f (unmount hash) s) orderly
        (unmount_device-Matches f hash s works m)
