-- ===== src/DeviceSet/Match.antt =====
-- The entries of the devices against what the kernel has mounted.
use docker_analysis.Base.{
  ℕ, suc, ◌≡◌, true, false, List, Option, some, if◌then◌else◌, ◌==◌, str_eq, str_beq_iff, Str, ltb,
  arith, ap, ◌∙◌, sym, subst, Option-cases, Bool-cases, inl, inr, eq_refl,
}
use docker_analysis.Base.Dict.{lookup, insert, lookup-insert}
use docker_analysis.DeviceSet.{
  DevInfo, DeviceSet, lookup_device, load_metadata, put_info, metadata_file,
}
use docker_analysis.DeviceSet.MountTable.{is_mounted, mounts_at, expected}

-- Each device has a path of its own.
module _ (path_of : Str → Str) (own : (h j : Str) → path_of h ≡ path_of j → h ≡ j) where
  -- At the path of a device with a count above 0, that device is mounted once and nothing else is;
  -- nothing is mounted at the path of any other device. A metadata file has no count.
  pub record Matches (s : DeviceSet) : Type 0 where
    pub counts : (h : Str) → mounts_at (path_of h) s.mounted ≡ expected h (lookup h s.devices)
    pub paths :
        (h : Str) (info : DevInfo)
        → lookup h s.devices ≡ some info
        → ltb 0 info.mount_count ≡ true
        → info.mount_path ≡ path_of h
    pub saved : (file : Str) → is_mounted (lookup file s.files) ≡ false

  pub path_beq : (h j : Str) → (path_of h == path_of j) ≡ (h == j)
  path_beq h j = elim (Bool-cases (h == j)) [
    | inl e ↦
        ground (arith, e, str_beq_iff (path_of h) (path_of j), ap path_of ((str_beq_iff h j).0 e))
    | inr e ↦ ground (arith, e, str_beq_iff h j, str_beq_iff (path_of h) (path_of j), own h j)
  ]

  -- The device with that entry is put in, and the kernel has it mounted where the entry has a count.
  pub Matches-put_info :
      (hash : Str) (info : DevInfo) (s : DeviceSet) (mounted : List (Str × Str))
      → Matches s
      → ((j : Str)
          → mounts_at (path_of j) mounted
            ≡ (if hash == j then expected hash (some info) else mounts_at (path_of j) s.mounted))
      → (ltb 0 info.mount_count ≡ true → info.mount_path ≡ path_of hash)
      → Matches (record (put_info hash info s) { mounted = mounted })
  Matches-put_info hash info s mounted m h path = record {
    counts = λ j. counted j;
    paths = λ j i e pos. placed j i e pos;
    saved = m.saved;
  }
    where
      counted :
          (j : Str)
          → mounts_at (path_of j) mounted ≡ expected j (lookup j (insert hash info s.devices))
      counted j = elim (Bool-cases (hash == j)) [
        | inl e ↦
            let same : hash ≡ j = (str_beq_iff hash j).0 e in
            h j
            ∙ ap (λ b. if b then expected hash (some info) else mounts_at (path_of j) s.mounted) e
            ∙ ap (λ k. expected k (some info)) same
            ∙ ap (expected j) (
                sym (
                  lookup-insert hash j info s.devices
                  ∙ ap (λ b. if b then some info else lookup j s.devices) e))
        | inr e ↦
            h j
            ∙ ap (λ b. if b then expected hash (some info) else mounts_at (path_of j) s.mounted) e
            ∙ m.counts j
            ∙ ap (expected j) (
                sym (
                  lookup-insert hash j info s.devices
                  ∙ ap (λ b. if b then some info else lookup j s.devices) e))
      ]

      placed :
          (j : Str) (i : DevInfo)
          → lookup j (insert hash info s.devices) ≡ some i
          → ltb 0 i.mount_count ≡ true
          → i.mount_path ≡ path_of j
      placed j i e pos =
          let found = sym (lookup-insert hash j info s.devices) ∙ e in
          elim (Bool-cases (hash == j)) [
            | inl same ↦
                let is_info : info ≡ i = ground (arith, found, same) in
                let at_hash : i.mount_path ≡ path_of hash =
                  subst (λ k. ltb 0 k.mount_count ≡ true → k.mount_path ≡ path_of hash) is_info path
                    pos in
                at_hash ∙ ap path_of ((str_beq_iff hash j).0 same)
            | inr other ↦ m.paths j i (ground (arith, found, other)) pos
          ]

  info_unmounted :
      (hash : Str) (info : DevInfo) (s : DeviceSet)
      → Matches s
      → load_metadata hash s ≡ some info
      → ltb 0 info.mount_count ≡ false
  unfolding load_metadata
  info_unmounted hash info s m f = elim (Option-cases (lookup (metadata_file hash) s.files)) [
    | inl e ↦ absurd (ground (arith, e))
    | inr (saved, e) ↦ ground (arith, e, m.saved (metadata_file hash))
  ]

  -- The mounts at the paths, where those of one device are known.
  same_at :
      (xs : List (Str × Str)) (h j : Str) (b : List Str)
      → mounts_at (path_of h) xs ≡ b
      → mounts_at (path_of j) xs ≡ (if h == j then b else mounts_at (path_of j) xs)
  same_at xs h j b e = elim (Bool-cases (h == j)) [
    | inl f ↦
        let same : h ≡ j = (str_beq_iff h j).0 f in
        sym (ap (λ k. mounts_at (path_of k) xs) same)
        ∙ e
        ∙ ap (λ c. if c then b else mounts_at (path_of j) xs) (sym f)
    | inr f ↦ ap (λ c. if c then b else mounts_at (path_of j) xs) (sym f)
  ]

  -- A look-up keeps the match, and gives the entry that the set then has.
  abbrev pub Looked : Str → Option DevInfo × DeviceSet → Type 0
  Looked hash (o, s) = Matches s × (lookup hash s.devices ≡ o)

  pub Looked-lookup_device :
      (hash : Str) (s : DeviceSet) → Matches s → Looked hash (lookup_device hash s)
  unfolding lookup_device load_metadata
  Looked-lookup_device hash s m = elim (Option-cases (lookup hash s.devices)) [
    | inr (info, e) ↦ rw (lookup_device, e) (m, e)
    | inl e ↦ elim (Option-cases (load_metadata hash s)) [
      | inl f ↦ rw (lookup_device, e, f) (m, e)
      | inr (info, f) ↦
          let unmounted = info_unmounted hash info s m f in
          rw (lookup_device, e, f)
            (
              Matches-put_info hash info s s.mounted m
                  (λ j.
                    same_at s.mounted hash j (expected hash (some info))
                      (m.counts hash ∙ ground (arith, e, unmounted)))
                  (λ pos. absurd (ground arith)),
              lookup-insert hash hash info s.devices ∙ ground (arith, eq_refl hash),
            )
    ]
  ]

  -- A count that goes from above 0 to above 0.
  pub recounted :
      (hash : Str) (info : DevInfo) (n k : ℕ) (s : DeviceSet)
      → Matches s
      → lookup hash s.devices ≡ some info
      → info.mount_count ≡ suc n
      → Matches (put_info hash (record info { mount_count = suc k }) s)
  recounted hash info n k s m e c =
      let now = record info { mount_count = suc k } in
      Matches-put_info hash now s s.mounted m
        (λ j.
          same_at s.mounted hash j (expected hash (some now))
            (m.counts hash ∙ ground (arith, e, c)))
        (λ pos. m.paths hash info e (ground (arith, c)))
