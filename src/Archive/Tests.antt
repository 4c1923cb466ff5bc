-- ===== src/Archive/Tests.antt =====
-- The theorems on trees and layers at concrete values.
use docker_analysis.Base.{ℕ, ◌≡◌, false, [], ◌∷◌, ◌++◌, arith, refl, codes}
use docker_analysis.Archive.Changes.{
  delete, FileInfo, file_info, Children, childless, child_and, child, Stat, changes, look_up,
}
use docker_analysis.Archive.Changes.Find.{has_change}
use docker_analysis.Archive.Changes.Complete.{expected, in_directory, has_change-changes}
use docker_analysis.Archive.Aufs.{Status, recorded, is_metadata, visit, whiteout, visit-whiteout}

abbrev file_stat : ℕ → ℕ → Stat
file_stat mode sec = record {
  mode = mode;
  uid = 0;
  gid = 0;
  rdev = 0;
  size = 5;
  mtime = record { sec = sec; nsec = 1 };
}

abbrev regular : ℕ → FileInfo
regular sec = file_info (file_stat 0x81A4 sec) [] childless

abbrev directory : Children → FileInfo
directory kids = file_info (file_stat 0x41ED 9) [] kids

-- /etc/hosts is changed, /etc/motd is removed.
abbrev old_tree : FileInfo
old_tree = directory (
    child_and (codes "etc")
      (directory
        (child_and (codes "hosts") (regular 1) (child_and (codes "motd") (regular 1) childless)))
      childless)

abbrev new_tree : FileInfo
new_tree = directory (
    child_and (codes "etc") (directory (child_and (codes "hosts") (regular 2) childless)) childless)

has_change-changes_example :
    has_change delete (codes "etc" ∷ codes "motd" ∷ []) (changes new_tree old_tree)
    ≡ expected delete
        (in_directory [] (codes "etc" ∷ codes "motd" ∷ []) new_tree)
        (look_up (codes "etc" ∷ codes "motd" ∷ []) new_tree)
        (look_up (codes "etc" ∷ codes "motd" ∷ []) old_tree)
unfolding child
has_change-changes_example =
    has_change-changes delete (codes "etc") (codes "motd" ∷ []) new_tree old_tree
      ((refl, ((tt, tt), refl, tt)), refl, tt)

abbrev some_status : Status
some_status = record {
  is_directory = false;
  size = 0;
  mode = 0;
  time = record { sec = 1; nsec = 0 };
}

visit-whiteout_example :
    visit [] (record {
      dir = (whiteout (codes "etc" ∷ []) (codes "motd")).0;
      base = (whiteout (codes "etc" ∷ []) (codes "motd")).1;
      status = some_status;
    })
    ≡ recorded (record { path = codes "etc" ∷ [] ++ codes "motd" ∷ []; kind = delete })
unfolding is_metadata whiteout
visit-whiteout_example =
    visit-whiteout [] (codes "etc" ∷ []) (codes "motd") some_status
      (ground arith, ground arith, ground arith) refl
