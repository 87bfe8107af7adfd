-- ===== src/DelFile.antt =====
-- network/pfs_del_file.c and `do_sync_del_req` of network/S/pfs_sig_task.c: the list of deleted
-- files, from which a server that was away is told what to delete. Records are written and read
-- whole.
pub mod Times
pub mod Sync
mod Examples
use pfs.Common.{
  ℕ, zero, suc, ◌+◌, Bool, true, false, not, ◌||◌, Option, none, some, List, [], ◌∷◌, ◌++◌, length,
  get_elem?, ltb, leb, ◌==◌, if◌then◌else◌, ℤ, pos, negsuc,
}
use pfs.LocalFile.{clip, decimal}
use pfs.Address.{digits}
use pfs.Task.Types.{TaskBase, zero_base, task_delfile}

-- `dtime` and `file` are C strings in their fields.
pub record DelRecord : Type 0 where
  pub dtime : List ℕ
  pub file : List ℕ

-- atol of a text that starts with digits.
abbrev pub atol : List ℕ → ℕ
atol s = (digits 10 0 s).0

-- "%ld" into the ten bytes of `dtime`.
pub print_time : ℕ → List ℕ
print_time t = clip 9 (decimal 20 t)

-- `opened` and `written` say that `open` and `write` work; the result of `write` is not looked at.
pub add_2_del_file : Bool → Bool → TaskBase → List DelRecord → List DelRecord × ℤ
add_2_del_file opened written base dels =
    let entry : DelRecord = record {
      dtime = print_time base.mtime;
      file = clip 255 base.filename;
    } in
    if not opened
    then (dels, negsuc 0)
    else if written
    then (dels ++ entry ∷ [], pos 0)
    else (dels, pos 0)

-- The loop over the records, from `index` on.
pub find_from : ℕ → ℕ → List DelRecord → Option (ℕ × DelRecord)
find_from last index [] = none
find_from last index (d ∷ ds) =
    let later = find_from last (index + 1) ds in
    if atol d.dtime == last then some (index, d) else later

-- `exists` says that the list can be looked at. `none` is -1.
pub find_last_index : Bool → Bool → TaskBase → ℕ → List DelRecord → TaskBase × Option ℕ
find_last_index exists opened base last dels =
    if not exists || not opened then (base, none) else elim (find_from last 0 dels) [
      | none ↦ (base, none)
      | some (index, d) ↦ (record base { filename = clip 255 d.file }, some index)
    ]

-- `none` is -1.
pub get_from_del_file : Bool → Bool → ℕ → ℕ → List DelRecord → Option ℕ
get_from_del_file exists opened next cur dels =
    if not exists
    then none
    else if leb (length dels) next
    then none
    else if not opened
    then none
    else elim (get_elem? dels next) [
      | none ↦ none
      | some d ↦ if ltb cur (atol d.dtime) then none else some next
    ]

-- What is put into the send buffer of the peer: NEWTASK_REQ with a task, or SYNC_DEL_RSP.
pub data Message : Type 0 where
  newtask_req : TaskBase → Message
  sync_del_rsp : Message

-- `exists` and `opened` answer for the call of round `next`. On enough fuel the loop ends by
-- itself.
pub send_deletions :
    (ℕ → Bool) → (ℕ → Bool) → ℕ → List DelRecord → ℕ → TaskBase → ℕ → Option (List Message)
send_deletions exists opened cur dels zero base next = none
send_deletions exists opened cur dels (suc fuel) base next =
    let cleared = record base { filename = [] } in
    elim (get_from_del_file (exists (next + 1)) (opened (next + 1)) (next + 1) cur dels) [
      | none ↦ some (newtask_req base ∷ [])
      | some n ↦ elim (send_deletions exists opened cur dels fuel cleared n) [
        | none ↦ none
        | some ms ↦ some (newtask_req base ∷ ms)
      ]
    ]

-- What follows the search.
pub answer_sync :
    (ℕ → Bool) → (ℕ → Bool) → ℕ → ℕ → List DelRecord → TaskBase × Option ℕ → Option (List Message)
answer_sync exists opened cur fuel dels (base, none) = some (sync_del_rsp ∷ [])
answer_sync exists opened cur fuel dels (base, some next) =
    elim (send_deletions exists opened cur dels fuel base next) [
      | none ↦ none
      | some ms ↦ some (ms ++ sync_del_rsp ∷ [])
    ]

-- `first_exists` and `first_opened` answer for `find_last_index`.
pub do_sync_del_req :
    Bool → Bool → (ℕ → Bool) → (ℕ → Bool) → ℕ → ℕ → ℕ → List DelRecord → Option (List Message)
do_sync_del_req first_exists first_opened exists opened cur starttime fuel dels =
    answer_sync exists opened cur fuel dels (
      find_last_index first_exists first_opened (record zero_base { type = task_delfile }) starttime
        dels)
