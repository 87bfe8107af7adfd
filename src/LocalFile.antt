-- ===== src/LocalFile.antt =====
-- network/pfs_localfile.c: where a file lies on a storage server, and how a received file gets
-- there. A C string is the list of its bytes without the NUL; strings are taken to fit their
-- fields, so that nothing is cut but where `snprintf` cuts.
pub mod Paths
pub mod Store
mod Examples
use pfs.Common.{
  ℕ, zero, suc, ◌+◌, ◌-◌, ◌/◌, ◌%◌, ◌^◌, ◌≤◌, ◌<◌, Bool, true, false, Option, none, some, List, [],
  ◌∷◌, ◌++◌, not, ◌&&◌, ◌||◌, ltb, leb, ◌==◌, if◌then◌else◌, length, take, drop, ℤ, pos, negsuc,
  ltb_ℤ,
}
use pfs.Task.Types.{TaskBase}

abbrev pub slash : ℕ
slash = 47

abbrev pub is_digit : ℕ → Bool
is_digit c = leb 48 c && leb c 57

-- enum LOCALFILE_…
pub data LocalResult : Type 0 where
  localfile_ok localfile_tmpfile localfile_md5_e localfile_size_e : LocalResult
  localfile_dir_e localfile_file_e localfile_open_e localfile_rename_e localfile_unlink_e :
      LocalResult

abbrev pub is_ok : LocalResult → Bool
is_ok localfile_ok = true
is_ok _ = false

-- snprintf(…, n, "%s", s)
abbrev pub clip : ℕ → List ℕ → List ℕ
clip n s = take n s

-- The loop of `trim_sep`; `prev` says that the last byte that was read is a separator.
pub trim_loop : ℕ → Bool → List ℕ → List ℕ
trim_loop sep prev [] = []
trim_loop sep prev (c ∷ cs) =
    let skip = trim_loop sep prev cs in
    let keep = trim_loop sep (c == sep) cs in if prev && (c == sep) then skip else c ∷ keep

-- Runs of a separator become one. A string that does not fit the copy stays.
pub trim_sep : List ℕ → ℕ → List ℕ
trim_sep s sep = if leb 1023 (length s) then s else trim_loop sep false s

-- strrchr: what is before the last `c`, and the string from there on.
pub split_last : ℕ → List ℕ → Option (List ℕ × List ℕ)
split_last c [] = none
split_last c (x ∷ xs) = elim (split_last c xs) [
  | some p ↦ some (x ∷ p.0, p.1)
  | none ↦ if x == c then some ([], x ∷ xs) else none
]

-- `rev_onto xs ys` is the reverse of `xs`, and then `ys`.
pub rev_onto : List ℕ → List ℕ → List ℕ
rev_onto [] ys = ys
rev_onto (x ∷ xs) ys = rev_onto xs (x ∷ ys)

-- The loop that walks to the front over digits and slashes. The first list is what lies in front,
-- the nearest byte first; `seen` is the string from the byte behind `t` on, and `last` the string
-- from the last slash that was met.
pub walk : List ℕ → List ℕ → List ℕ → List ℕ
walk [] seen last = last
walk (c ∷ cs) seen last =
    let rest = walk cs (c ∷ seen) (if c == slash then c ∷ seen else last) in
    if is_digit c || (c == slash) then rest else last

-- `before` are the bytes of memory in front of the field `filename`, the nearest first: the loop
-- has no bound there. With no slash in the name nothing changes.
pub storage_convert : List ℕ → List ℕ → TaskBase → TaskBase × LocalResult
storage_convert datadir before task = elim (split_last slash task.filename) [
  | none ↦ (task, localfile_dir_e)
  | some p ↦
      let last = walk (rev_onto p.0 before) p.1 p.1 in
      (
        record task {
          retfile = clip 255 last;
          filename = trim_sep (clip 255 (datadir ++ last)) slash;
        },
        localfile_ok,
      )
]

-- memcmp and strcmp on strings.
unfoldable pub eqb : List ℕ → List ℕ → Bool
eqb [] [] = true
eqb [] (y ∷ ys) = false
eqb (x ∷ xs) [] = false
eqb (x ∷ xs) (y ∷ ys) = (x == y) && eqb xs ys

-- The file system as far as these functions see it: what a path holds, and for a descriptor the
-- path that it has open and the offset.
pub record Disk : Type 0 where
  pub content : List ℕ → Option (List ℕ)
  pub path : ℤ → List ℕ
  pub offset : ℤ → ℕ

abbrev pub put_file :
    List ℕ → Option (List ℕ) → (List ℕ → Option (List ℕ)) → List ℕ → Option (List ℕ)
put_file p v f q = if eqb q p then v else f q

abbrev pub put_fd {ℓ} : {A : Type ℓ} → ℤ → A → (ℤ → A) → ℤ → A
put_fd (pos n) v f (pos m) = if m == n then v else f (pos m)
put_fd (pos n) v f (negsuc m) = f (negsuc m)
put_fd (negsuc n) v f (pos m) = f (pos m)
put_fd (negsuc n) v f (negsuc m) = if m == n then v else f (negsuc m)

abbrev pub bytes_at : Option (List ℕ) → List ℕ
bytes_at none = []
bytes_at (some b) = b

-- write of `xs`, all of them, at the offset of the descriptor.
pub write_file : ℤ → List ℕ → Disk → Disk
write_file fd xs d =
    let old = bytes_at (d.content (d.path fd)) in
    let o = d.offset fd in
    record d {
      content =
          put_file (d.path fd) (some (take o old ++ xs ++ drop (o + length xs) old)) d.content;
      offset = put_fd fd (o + length xs) d.offset;
    }

-- rename of a file that is there.
pub rename_file : List ℕ → List ℕ → Disk → Disk
rename_file from to d = record d {
  content = put_file to (d.content from) (put_file from none d.content);
}

-- open with O_CREAT, which gave `fd`.
pub open_file : ℤ → List ℕ → Disk → Disk
open_file fd p d = record d {
  content = put_file p (some (bytes_at (d.content p))) d.content;
  path = put_fd fd p d.path;
  offset = put_fd fd 0 d.offset;
}

-- What the system answers when a file is opened: the first `open` and whether `errno` is ENOENT
-- when it fails, whether the directory is there or can be made, the second `open`, and the time
-- as `get_strtime` writes it.
pub record OpenSys : Type 0 where
  pub first : ℤ
  pub enoent : Bool
  pub dir_ok : Bool
  pub second : ℤ
  pub strtime : List ℕ

abbrev pub is_negative : ℤ → Bool
is_negative a = ltb_ℤ a (pos 0)

-- "%d" of a number below 10 ^ n.
pub decimal : ℕ → ℕ → List ℕ
decimal zero v = []
decimal (suc n) v =
    let front = decimal n (v / 10) in
    if ltb v 10 then (48 + v) ∷ [] else front ++ (48 + v % 10) ∷ []

-- _TIME_INDEX; the `uint32_t` is printed with %d.
pub get_tmpstr : List ℕ → ℕ → List ℕ
get_tmpstr strtime g_index =
    let signed =
      if ltb g_index (2 ^ 31) then decimal 10 g_index else 45 ∷ decimal 10 (2 ^ 32 - g_index) in
    clip 31 (95 ∷ strtime ++ 95 ∷ signed)

pub record Opened : Type 0 where
  pub task : TaskBase
  pub fd : ℤ
  pub g_index : ℕ
  pub disk : Disk
  pub ret : LocalResult

-- A first `open` that fails for another reason than ENOENT is not an error here.
pub open_tmp_localfile_4_write : List ℕ → List ℕ → OpenSys → ℕ → ℤ → Disk → TaskBase → Opened
open_tmp_localfile_4_write datadir before sys g_index fd d task0 =
    let c = storage_convert datadir before task0 in
    let tmp =
      clip 255 c.0.filename ++ 46 ∷ get_tmpstr sys.strtime g_index ++ 46 ∷ 112 ∷ 102 ∷ 115 ∷ [] in
    let task = record (c.0) { tmpfile = tmp } in
    let index = (g_index + 1) % 2 ^ 32 in
    if not (is_ok c.1)
    then record { task = c.0; fd = fd; g_index = g_index; disk = d; ret = localfile_dir_e }
    else if not (is_negative sys.first)
    then record {
      task = task;
      fd = sys.first;
      g_index = index;
      disk = open_file sys.first tmp d;
      ret = localfile_ok;
    }
    else if not sys.enoent
    then record { task = task; fd = sys.first; g_index = index; disk = d; ret = localfile_ok }
    else if not sys.dir_ok
    then record { task = task; fd = sys.first; g_index = index; disk = d; ret = localfile_dir_e }
    else if is_negative sys.second
    then record { task = task; fd = sys.second; g_index = index; disk = d; ret = localfile_open_e }
    else record {
      task = task;
      fd = sys.second;
      g_index = index;
      disk = open_file sys.second tmp d;
      ret = localfile_ok;
    }

-- `md5` is the digest of lib/md5.c. `getfilemd5` reads the file, and fails when it is not there;
-- a file that is there is taken to be readable.
module _ (md5 : List ℕ → List ℕ) where
  pub check_localfile_md5 : Disk → List ℕ → List ℕ → LocalResult
  check_localfile_md5 d file filemd5 = elim (d.content file) [
    | none ↦ localfile_file_e
    | some bytes ↦ if eqb (md5 bytes ++ 0 ∷ []) filemd5 then localfile_ok else localfile_md5_e
  ]

  -- `digest` are the 17 bytes at `omd5`, one more than it has. The descriptor is closed when
  -- it is not negative. `rename_ok` is the system's answer.
  pub close_tmp_check_mv : Bool → TaskBase → ℤ → List ℕ → Disk → Disk × LocalResult
  close_tmp_check_mv rename_ok task fd digest d =
      let checked = check_localfile_md5 d task.tmpfile task.filemd5 in
      let moved =
        if rename_ok
        then (rename_file task.tmpfile task.filename d, localfile_ok)
        else (d, localfile_rename_e) in
      if is_negative fd
      then (d, localfile_open_e)
      else if eqb digest task.filemd5
      then moved
      else if is_ok checked
      then moved
      else (d, checked)

-- What `delete_localfile` leaves: the name it looked for, the file under its new name, and the file
-- that the timer will remove, if there is one.
pub record Deleted : Type 0 where
  pub task : TaskBase
  pub disk : Disk
  pub removal : Option (List ℕ)
  pub ret : LocalResult

-- `rename_ok` is the system's answer. The entry in the list of deleted files is not modelled.
pub delete_localfile : List ℕ → List ℕ → Bool → Disk → TaskBase → Deleted
delete_localfile datadir before rename_ok d task =
    let c = storage_convert datadir before task in
    let rmfile = clip 255 (c.0.filename ++ 46 ∷ 116 ∷ 109 ∷ 112 ∷ 52 ∷ 114 ∷ 109 ∷ []) in
    if not (is_ok c.1)
    then record { task = c.0; disk = d; removal = none; ret = localfile_dir_e }
    else if not rename_ok
    then record { task = c.0; disk = d; removal = none; ret = localfile_rename_e }
    else record {
      task = c.0;
      disk = rename_file c.0.filename rmfile d;
      removal = some rmfile;
      ret = localfile_ok;
    }
