-- ===== src/ActiveList.antt =====
-- The list `activelist` of network/U/pfs_up.c and network/D/pfs_data.c: the connections of a
-- process in the order in which they were last moved to the end, each with its `hbtime`. A
-- connection is named by its descriptor.
pub mod Order
pub mod Timeout
mod Examples
use pfs.Common.{ℕ, ◌+◌, Bool, true, false, List, [], ◌∷◌, ◌++◌, ltb, ◌==◌, if◌then◌else◌}

pub record Active : Type 0 where
  pub fd : ℕ
  pub hbtime : ℕ

-- list_del_init
pub del_active : ℕ → List Active → List Active
del_active fd [] = []
del_active fd (a ∷ l) = if a.fd == fd then l else a ∷ del_active fd l

-- `svc_initconn`, `svc_recv` and `svc_send`: the clock is read, and the connection goes to the end.
pub touch : ℕ → ℕ → List Active → List Active
touch now fd l = del_active fd l ++ record { fd = fd; hbtime = now } ∷ []

-- `svc_send_once` and `active_send` read the clock and leave the connection where it is.
pub svc_send_once : ℕ → ℕ → List Active → List Active
svc_send_once now fd [] = []
svc_send_once now fd (a ∷ l) =
    let rest = svc_send_once now fd l in
    if a.fd == fd then record a { hbtime = now } ∷ l else a ∷ rest

-- `svc_timeout`: the descriptors that are closed, and the list that is left. now - hbtime < to
pub svc_timeout : ℕ → ℕ → List Active → List ℕ × List Active
svc_timeout now to [] = ([], [])
svc_timeout now to (a ∷ l) =
    let rest = svc_timeout now to l in
    if ltb now (a.hbtime + to) then ([], a ∷ l) else (a.fd ∷ rest.0, rest.1)

pub data Event : Type 0 where
  touched : ℕ → Event
  sent : ℕ → Event
  ended : ℕ → Event

-- What happens at a time.
pub step : ℕ → Event → List Active → List Active
step now (touched fd) l = touch now fd l
step now (sent fd) l = svc_send_once now fd l
step now (ended fd) l = del_active fd l

-- A history, with the times of its events.
pub run : List (ℕ × Event) → List Active → List Active
run [] l = l
run ((now, e) ∷ es) l = run es (step now e l)
