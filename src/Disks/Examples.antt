-- ===== src/Disks/Examples.antt =====
-- Three directories on two disks: two first directories with one second one each, and one more.
use pfs.Common.{
  ℕ, ◌+◌, ◌*◌, ◌≤◌, ◌<◌, ◌≡◌, refl, false, none, some, [], ◌∷◌, length, ◌==◌, if◌then◌else◌, arith,
}
use pfs.Disks.{DiskInfo, Stat, Disks, row, rows, refresh_disk_info}
use pfs.Task.Moves.{occurs}
use pfs.Upload.Names.{get_max_free_storage}
use pfs.Disks.Table.{Match}
use pfs.Disks.Choice.{max_disk, get_max_free_storage-Match}
use pfs.Disks.Refresh.{Visited, listed, refresh_disk_info-Visited}

abbrev free_place : DiskInfo
free_place = record { fsid = 0; pathcluster = λ k. 0; count = 0; firstpath = 0 }

abbrev two_places : Disks
two_places = record { diskinfo = free_place ∷ free_place ∷ []; max_disk = none }

-- Directories 0/0 and 1/0 are on file system 5, the others on file system 6.
abbrev two_disks : ℕ → ℕ → Stat
two_disks d1 d2 = record { fsid = if d2 == 0 then 5 else 6; err = false }

enough_places : length (listed 2 two_disks (rows 2 2 0) []) ≤ 2
unfolding rows row
enough_places = omega arith

refresh_disk_info-Visited_example :
    Visited 2 two_disks (rows 2 2 0) 0 two_places [] (refresh_disk_info 2 2 two_disks two_places)
refresh_disk_info-Visited_example =
    refresh_disk_info-Visited 1 1 two_disks two_places (λ d1 d2. refl) (omega arith) (omega arith)
      (record { count = refl; zeros = λ k. refl }, (record { count = refl; zeros = λ k. refl }, tt))
      enough_places

-- A disk with the directories 0/0 and 3/7.
abbrev two_dirs : DiskInfo
two_dirs = record {
  fsid = 5;
  pathcluster = λ k. if k == 0 then 307 else 0;
  count = 2;
  firstpath = 0;
}

two_dirs-Match : Match 2 308 two_dirs 5 (0 ∷ 307 ∷ [])
two_dirs-Match = record {
  fsid = refl;
  count = refl;
  some_dir = omega arith;
  laid = (refl, λ e. omega (arith, e), λ k h. ground arith);
  below = (omega arith, (omega arith, tt));
  few = omega arith;
}

get_max_free_storage-Match_example :
    ((d1 d2 : ℕ) × ((get_max_free_storage 100 (some (max_disk two_dirs 1))).0 ≡ (d1, d2))
      × (1 ≤ occurs (d1 * 100 + d2) (0 ∷ 307 ∷ []))
      × (d2 < 100))
    × ((next : ℕ) × ((get_max_free_storage 100 (some (max_disk two_dirs 1))).1
          ≡ some (max_disk two_dirs next))
        × (next < 2))
get_max_free_storage-Match_example =
    get_max_free_storage-Match 2 308 100 1 two_dirs 5 (0 ∷ 307 ∷ []) two_dirs-Match (omega arith)
      (omega arith)
