-- ===== src/DelFile/Examples.antt =====
-- Two deletions, of times that fit the list.
use pfs.Common.{ℕ, ◌≡◌, refl, Bool, true, some, List, [], ◌∷◌, ◌++◌, length, arith}
use pfs.LocalFile.{clip}
use pfs.Address.{digits, digit_value}
use pfs.Task.Types.{TaskBase, zero_base, task_delfile}
use pfs.DelFile.{DelRecord, Message, newtask_req, sync_del_rsp, find_from, do_sync_del_req}
use pfs.DelFile.Times.{record_all}
use pfs.DelFile.Sync.{Nameless, sync_late, sync_names}

abbrev gone : ℕ → TaskBase
gone t = record zero_base { filename = 97 ∷ []; mtime = t }

abbrev both : List (Bool × Bool × TaskBase)
both = (true, true, gone 1700000000) ∷ (true, true, gone 1700000001) ∷ []

sync_late_example :
    do_sync_del_req true true (λ k. true) (λ k. true) 1700000009 1700000000 2 (record_all both [])
    ≡ some (sync_del_rsp ∷ [])
sync_late_example =
    sync_late both true true (λ k. true) (λ k. true) 1700000009 1700000000 2 (omega arith)

abbrev two : List DelRecord
two = record { dtime = 55 ∷ []; file = 97 ∷ [] } ∷ record { dtime = 56 ∷ []; file = 98 ∷ [] } ∷ []

found : find_from 7 0 two ≡ some (0, record { dtime = 55 ∷ []; file = 97 ∷ [] })
unfolding find_from digits digit_value
found = refl

sync_names_example :
    (rest : List Message) × (do_sync_del_req true true (λ k. true) (λ k. true) 9 7 (length two) two
      ≡ some (
          newtask_req (record zero_base { filename = clip 255 (97 ∷ []); type = task_delfile })
          ∷ (rest ++ sync_del_rsp ∷ [])))
    × Nameless rest
sync_names_example =
    sync_names true true (λ k. true) (λ k. true) 9 7 0 (record { dtime = 55 ∷ []; file = 97 ∷ [] })
      two refl found
