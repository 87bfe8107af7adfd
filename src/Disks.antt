-- ===== src/Disks.antt =====
-- network/pfs_init.c: `set_info_disk` and `refresh_disk_info`, which find out which directories are
-- on which disk.
pub mod Table
pub mod Refresh
pub mod Choice
mod Examples
use pfs.Common.{
  ℕ, zero, suc, ◌+◌, ◌-◌, ◌*◌, Bool, true, false, not, Option, none, some, List, [], ◌∷◌, ◌++◌, leb,
  ◌==◌, if◌then◌else◌,
}
use pfs.Task.{update}

abbrev pub totaldirs : ℕ
totaldirs = 10000

-- `t_disk_info`; `firstpath` is named by the number of the directory. A disk with no directory is
-- free.
pub record DiskInfo : Type 0 where
  pub fsid : ℕ
  pub pathcluster : ℕ → ℕ
  pub count : ℕ
  pub firstpath : ℕ

-- What the system says of a directory: the file system that it is on, and whether a call failed;
-- then `fsid` is what memory holds.
pub record Stat : Type 0 where
  pub fsid : ℕ
  pub err : Bool

-- How the search in `pathcluster` ends.
pub data Slot : Type 0 where
  present : Slot
  free : ℕ → Slot
  wrong : Slot

-- From entry `j` on, `n` of them.
pub find_slot : ℕ → (ℕ → ℕ) → ℕ → ℕ → Slot
find_slot dirs p zero j = wrong
find_slot dirs p (suc n) j =
    let rest = find_slot dirs p n (j + 1) in
    if p j == dirs then present else if p j == 0 then free j else rest

pub put_dir : ℕ → DiskInfo → Slot → Option DiskInfo
put_dir dirs x present = some x
put_dir dirs x (free j) =
    some (record x { pathcluster = update x.pathcluster j dirs; count = x.count + 1 })
put_dir dirs x wrong = none

-- The disk is known. `none` is the result -1.
pub add_dir : ℕ → DiskInfo → Option DiskInfo
add_dir dirs x =
    if leb totaldirs x.count
    then none
    else put_dir dirs x (find_slot dirs x.pathcluster totaldirs 0)

-- `known` is the table after the disk's entry was changed.
pub with_known : List DiskInfo → Option DiskInfo → Option (List DiskInfo × ℕ)
with_known xs none = none
with_known xs (some x) = some (x ∷ xs, 0)

pub with_rest : DiskInfo → Option (List DiskInfo × ℕ) → Option (List DiskInfo × ℕ)
with_rest x none = none
with_rest x (some (xs, i)) = some (x ∷ xs, i + 1)

-- The loop over the disks, and where `disk_info` points afterwards: behind the table, when there
-- was no place.
pub set_disk : ℕ → ℕ → List DiskInfo → Option (List DiskInfo × ℕ)
set_disk fsid dirs [] = some ([], 0)
set_disk fsid dirs (x ∷ xs) =
    let rest = set_disk fsid dirs xs in
    if x.count == 0
    then some (
      record { fsid = fsid; pathcluster = update x.pathcluster 0 dirs; count = 1; firstpath = dirs }
          ∷ xs,
      0,
    )
    else if x.fsid == fsid
    then with_known xs (add_dir dirs x)
    else with_rest x rest

-- `diskinfo` and `max_disk`.
pub record Disks : Type 0 where
  pub diskinfo : List DiskInfo
  pub max_disk : Option ℕ

pub set_end : Stat → Disks → Option (List DiskInfo × ℕ) → Option Disks
set_end s d none = none
set_end s d (some (xs, i)) =
    some (record { diskinfo = xs; max_disk = if s.err then d.max_disk else some i })

pub set_info_disk : ℕ → Stat → ℕ → ℕ → Disks → Option Disks
set_info_disk dir1 s d1 d2 d = set_end s d (set_disk s.fsid (d1 * dir1 + d2) d.diskinfo)

-- The directories in the order of the two loops: from d2 on, `n` of them, and from d1 on.
pub row : ℕ → ℕ → ℕ → List (ℕ × ℕ)
row d1 zero d2 = []
row d1 (suc n) d2 = (d1, d2) ∷ row d1 n (d2 + 1)

pub rows : ℕ → ℕ → ℕ → List (ℕ × ℕ)
rows dir2 zero d1 = []
rows dir2 (suc n) d1 = row d1 dir2 0 ++ rows dir2 n (d1 + 1)

-- The loops stop at the first error.
pub visit_dirs : ℕ → (ℕ → ℕ → Stat) → List (ℕ × ℕ) → Disks → Option Disks
visit_dirs dir1 stat [] d = some d
visit_dirs dir1 stat ((d1, d2) ∷ l) d = elim (set_info_disk dir1 (stat d1 d2) d1 d2 d) [
  | none ↦ none
  | some d' ↦ visit_dirs dir1 stat l d'
]

-- An error, when no disk was chosen.
pub check_max : Disks → Option ℕ → Option Disks
check_max d none = none
check_max d (some i) = some d

pub with_disk : Option Disks → Option Disks
with_disk none = none
with_disk (some d) = check_max d d.max_disk

pub refresh_disk_info : ℕ → ℕ → (ℕ → ℕ → Stat) → Disks → Option Disks
refresh_disk_info dir1 dir2 stat d = with_disk (visit_dirs dir1 stat (rows dir2 dir1 0) d)
