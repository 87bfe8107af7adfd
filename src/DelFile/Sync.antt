-- ===== src/DelFile/Sync.antt =====
-- What `do_sync_del_req` of network/S/pfs_sig_task.c tells a server that was away.
use mathlib.Core.Option.{some-injective, none-ne-some}
use pfs.Common.{
  ℕ, zero, suc, ◌+◌, ◌≤◌, ◌<◌, ◌≡◌, refl, ap, ◌∙◌, ◌⊎◌, Bool, false, not, ◌||◌, Bool-cases, none,
  some, Option-cases, List, [], ◌∷◌, ◌++◌, length, get_elem?, leb, leb→lt, ltb, ◌==◌, inl, inr,
  arith,
}
use pfs.LocalFile.{clip}
use pfs.Task.Types.{TaskBase, zero_base, task_delfile}
use pfs.DelFile.{
  DelRecord, Message, newtask_req, sync_del_rsp, find_from, find_last_index, get_from_del_file,
  send_deletions, answer_sync, do_sync_del_req, atol,
}
use pfs.DelFile.Times.{Short, find_from-Short, record_all, record_all-Short}

find_last_index-Short :
    (exists opened : Bool) (base : TaskBase) (last : ℕ) (dels : List DelRecord)
    → Short dels
    → 1000000000 ≤ last
    → find_last_index exists opened base last dels ≡ (base, none)
unfolding find_last_index
find_last_index-Short exists opened base last dels h big =
    elim (Bool-cases (not exists || not opened)) [
      | inl y ↦ rw y refl
      | inr z ↦ rw (z, find_from-Short last 0 dels h big, find_last_index) refl
    ]

-- A server that was away since a time of ten digits, as all times have been since 2001, is told of
-- no deletion, whatever files were deleted meanwhile: the list holds nine digits of each time.
pub sync_late :
    (ops : List (Bool × Bool × TaskBase)) (first_exists first_opened : Bool)
    (exists opened : ℕ → Bool) (cur starttime fuel : ℕ)
    → 1000000000 ≤ starttime
    → do_sync_del_req first_exists first_opened exists opened cur starttime fuel (record_all ops [])
      ≡ some (sync_del_rsp ∷ [])
unfolding do_sync_del_req answer_sync
sync_late ops first_exists first_opened exists opened cur starttime fuel big =
    ap (answer_sync exists opened cur fuel (record_all ops [])) (
      find_last_index-Short first_exists first_opened (record zero_base { type = task_delfile })
        starttime (record_all ops []) (record_all-Short ops [] tt) big)

-- Tasks that name no file.
pub Nameless : List Message → Type 0
Nameless [] = Unit {0}
Nameless (newtask_req base ∷ ms) = (base.filename ≡ []) × Nameless ms
Nameless (sync_del_rsp ∷ ms) = ⊥

module _ (exists opened : ℕ → Bool) (cur : ℕ) (dels : List DelRecord) where
  get_from-cases :
      (next : ℕ)
      → (get_from_del_file (exists next) (opened next) next cur dels ≡ none)
        ⊎ ((get_from_del_file (exists next) (opened next) next cur dels ≡ some next)
            × (next < length dels))
  unfolding get_from_del_file
  get_from-cases next = elim (Bool-cases (exists next)) [
    | inr z ↦ inl (rw z refl)
    | inl y ↦ elim (Bool-cases (leb (length dels) next)) [
      | inl e ↦ inl (rw (y, e) refl)
      | inr f ↦ elim (Bool-cases (opened next)) [
        | inr z ↦ inl (rw (y, f, z) refl)
        | inl o ↦ elim (Option-cases (get_elem? dels next)) [
          | inl g ↦ inl (rw (y, f, o, g) refl)
          | inr (d, g) ↦ elim (Bool-cases (ltb cur (atol d.dtime))) [
            | inl late ↦ inl (rw (y, f, o, g, late) refl)
            | inr due ↦ inr (rw (y, f, o, g, due) refl, leb→lt (length dels) next f)
          ]
        ]
      ]
    ]
  ]

  -- The messages behind the first one.
  send_deletions-Nameless :
      (fuel : ℕ) (base : TaskBase) (next : ℕ)
      → next < length dels
      → length dels ≤ next + fuel
      → (rest : List Message) × (send_deletions exists opened cur dels fuel base next
          ≡ some (newtask_req base ∷ rest))
        × Nameless rest
  unfolding send_deletions Nameless
  send_deletions-Nameless zero base next h f = absurd (omega (arith, h, f))
  send_deletions-Nameless (suc fuel) base next h f = elim (get_from-cases (next + 1)) [
    | inl e ↦ ([], rw (e, send_deletions) refl, tt)
    | inr (e, p) ↦
        let r =
          send_deletions-Nameless fuel (record base { filename = [] }) (next + 1) p
            (omega (arith, f)) in
        (
          newtask_req (record base { filename = [] }) ∷ r.0,
          rw (e, r.1, send_deletions) refl,
          (refl, r.2),
        )
  ]

find_from_lt :
    (last index : ℕ) (ds : List DelRecord) (i : ℕ) (d : DelRecord)
    → find_from last index ds ≡ some (i, d)
    → i < index + length ds
unfolding find_from
find_from_lt last index [] i d e = absurd (none-ne-some _ e)
find_from_lt last index (x ∷ ds) i d e = elim (Bool-cases (atol x.dtime == last)) [
  | inl y ↦
      let f = ap (λ (p : ℕ × DelRecord). p.0) (some-injective _ _ (rw y at e)) in omega (arith, f)
  | inr z ↦ let r = find_from_lt last (index + 1) ds i d (rw z at e) in omega (arith, r)
]

answer_sent :
    (exists opened : ℕ → Bool) (cur : ℕ) (dels : List DelRecord) (fuel : ℕ) (base : TaskBase)
    (next : ℕ) (ms : List Message)
    → send_deletions exists opened cur dels fuel base next ≡ some ms
    → answer_sync exists opened cur fuel dels (base, some next) ≡ some (ms ++ sync_del_rsp ∷ [])
unfolding answer_sync
answer_sent exists opened cur dels fuel base next ms e = rw (e, answer_sync) refl

find_last_index_found :
    (exists opened : Bool) (base : TaskBase) (last i : ℕ) (d : DelRecord) (dels : List DelRecord)
    → (not exists || not opened) ≡ false
    → find_from last 0 dels ≡ some (i, d)
    → find_last_index exists opened base last dels
      ≡ (record base { filename = clip 255 d.file }, some i)
unfolding find_last_index
find_last_index_found exists opened base last i d dels o e = rw (o, e, find_last_index) refl

-- Once a deletion at the time asked for is found, the call ends, with as much fuel as the list has
-- records: it sends that deletion, by its name, then only tasks that name no file, and the answer.
pub sync_names :
    (first_exists first_opened : Bool) (exists opened : ℕ → Bool) (cur starttime i : ℕ)
    (d : DelRecord) (dels : List DelRecord)
    → (not first_exists || not first_opened) ≡ false
    → find_from starttime 0 dels ≡ some (i, d)
    → (rest : List Message) × (do_sync_del_req first_exists first_opened exists opened cur starttime
          (length dels)
          dels
        ≡ some (
            newtask_req (record zero_base { filename = clip 255 d.file; type = task_delfile })
            ∷ (rest ++ sync_del_rsp ∷ [])))
      × Nameless rest
unfolding do_sync_del_req
sync_names first_exists first_opened exists opened cur starttime i d dels o e =
    let r =
      send_deletions-Nameless exists opened cur dels (length dels)
        (record zero_base { filename = clip 255 d.file; type = task_delfile }) i
        (let lt = find_from_lt starttime 0 dels i d e in omega (arith, lt)) (omega arith) in
    (
      r.0,
      ap (answer_sync exists opened cur (length dels) dels) (
            find_last_index_found first_exists first_opened
              (record zero_base { type = task_delfile }) starttime i d dels o e)
          ∙ answer_sent exists opened cur dels (length dels) _ i _ (r.1),
      r.2,
    )
