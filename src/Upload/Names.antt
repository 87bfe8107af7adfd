-- ===== src/Upload/Names.antt =====
-- Where an upload is put: network/U/pfs_up_task.c (`get_local_filename`, `get_local_bname`),
-- `get_max_free_storage` of network/pfs_init.c and `base64_encode` of lib/common.c.
use Prim.Native.Nat.{bit_or}
use pfs.Common.{
  ℕ, zero, suc, ◌+◌, ◌-◌, ◌*◌, ◌/◌, ◌%◌, ◌^◌, not, Option, none, some, List, [], ◌∷◌, ◌++◌, ltb,
  leb, ◌==◌, if◌then◌else◌, length, get_elem?, replicate,
}
use pfs.LocalFile.{clip, decimal}
use pfs.Task.Types.{TaskBase, task_addfile}

-- d[i], where the source reads only inside of the string.
abbrev pub byte_at : List ℕ → ℕ → ℕ
byte_at d i = elim (get_elem? d i) [ none ↦ 0 | some b ↦ b ]

-- b64[idx]
pub b64_char : ℕ → ℕ
b64_char i =
    if ltb i 26
    then 65 + i
    else if ltb i 52
    then 71 + i
    else if ltb i 62
    then i - 4
    else if i == 62
    then 43
    else 47

pub b64_index : List ℕ → ℕ → ℕ
b64_index d i =
    let byte = i * 6 / 8 in
    let bit = i * 6 % 8 in
    let high = byte_at d byte * 2 ^ (bit - 2) % 64 in
    if ltb bit 3
    then byte_at d byte / 2 ^ (2 - bit) % 64
    else if ltb (byte + 1) (length d)
    then bit_or high (byte_at d (byte + 1) / 2 ^ (8 - (bit - 2)))
    else high

-- The characters `i`, `i + 1`, … , `n` of them.
pub b64_from : List ℕ → ℕ → ℕ → List ℕ
b64_from d i zero = []
b64_from d i (suc n) = b64_char (b64_index d i) ∷ b64_from d (i + 1) n

-- With `pad` 0.
pub base64_encode : List ℕ → List ℕ
base64_encode d = b64_from d 0 ((length d * 8 + 5) / 6)

-- `max_disk`: the clusters of the disk with the most free space, and the one whose turn it is.
pub record MaxDisk : Type 0 where
  pub pathcluster : List ℕ
  pub index : ℕ

-- `dir1` is the configured DIR1. The two directories, 0 and 0 without a disk, and the turn moves
-- on.
unfoldable pub get_max_free_storage : ℕ → Option MaxDisk → (ℕ × ℕ) × Option MaxDisk
get_max_free_storage dir1 none = ((0, 0), none)
get_max_free_storage dir1 (some m) =
    let dirs = byte_at m.pathcluster m.index in
    (
      (dirs / dir1, dirs % dir1),
      some (record m {
        index = if leb (length m.pathcluster) (m.index + 1) then 0 else m.index + 1;
      }),
    )

-- "/d1/d2/name"
pub in_dirs : ℕ × ℕ → List ℕ → List ℕ
in_dirs d name = clip 255 ((47 ∷ decimal 10 d.0) ++ (47 ∷ decimal 10 d.1) ++ (47 ∷ name))

-- strchr: the string from the first `c` on.
pub from_first : ℕ → List ℕ → List ℕ
from_first c [] = []
from_first c (x ∷ xs) = let rest = from_first c xs in if x == c then x ∷ xs else rest

-- "%04d"
pub decimal4 : ℕ → List ℕ
decimal4 n = let d = decimal 10 n in replicate (4 - length d) 48 ++ d

pub record Named : Type 0 where
  pub base : TaskBase
  pub pic_index : ℕ
  pub max_disk : Option MaxDisk

pub get_local_filename : ℕ → ℕ → ℕ → ℕ → Option MaxDisk → TaskBase → Named
get_local_filename dir1 now self_ip pic_index disk base =
    let real = decimal 20 now ++ (95 ∷ decimal 10 self_ip) ++ (95 ∷ decimal4 pic_index) in
    let name = base64_encode real ++ from_first 46 base.filename in
    let s = get_max_free_storage dir1 disk in
    if not (base.type == task_addfile)
    then record { base = base; pic_index = pic_index; max_disk = disk }
    else record {
      base = record base { filename = in_dirs s.0 name };
      pic_index = if leb 99999 (pic_index + 1) then 0 else pic_index + 1;
      max_disk = s.1;
    }

-- `basename` is that of the C library.
pub get_local_bname : ℕ → (List ℕ → List ℕ) → ℕ → Option MaxDisk → TaskBase → Named
get_local_bname dir1 basename pic_index disk base =
    let s = get_max_free_storage dir1 disk in
    record {
      base = record base { filename = in_dirs s.0 (clip 127 (basename base.filename)) };
      pic_index = pic_index;
      max_disk = s.1;
    }
