-- ===== src/ActiveList/Examples.antt =====
-- Two connections, of which one stays idle; and one that hides behind one that sends.
use pfs.Common.{ℕ, ◌≡◌, refl, true, false, List, [], ◌∷◌, if◌then◌else◌, map, arith}
use pfs.ActiveList.{Event, touched, sent, svc_timeout, svc_send_once, step, touch, del_active, run}
use pfs.ActiveList.Timeout.{is_idle, filter, svc_timeout-run}

abbrev history : List (ℕ × Event)
history = (10, touched 4) ∷ (20, touched 5) ∷ (45, touched 5) ∷ []

svc_timeout-run_example : svc_timeout 50 30 (run history []) ≡ (
  map (λ a. a.fd) (filter (is_idle 50 30) (run history [])),
  filter (λ a. if is_idle 50 30 a then false else true) (run history []),
)
svc_timeout-run_example = svc_timeout-run 0 50 30 history (omega arith)

idle_closed : (svc_timeout 50 30 (run history [])).0 ≡ 4 ∷ []
unfolding svc_timeout run step touch del_active
idle_closed = refl

-- Connection 5 has been idle for 40 seconds, but 4, in front of it, has just sent something.
idle_hidden :
    (svc_timeout 50 30 (run ((5, touched 4) ∷ (10, touched 5) ∷ (45, sent 4) ∷ []) [])).0 ≡ []
unfolding svc_timeout run step touch del_active svc_send_once
idle_hidden = refl
