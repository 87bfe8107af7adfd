-- ===== src/ActiveList/Timeout.antt =====
-- Which connections `svc_timeout` of network/U/pfs_up.c and network/D/pfs_data.c closes.
use pfs.Common.{
  ℕ, ◌+◌, ◌<◌, ◌≡◌, refl, ap, Bool, true, false, Bool-cases, List, [], ◌∷◌, map, ltb, ltb→lt,
  if◌then◌else◌, inl, inr, arith, lt→ltb,
}
use pfs.ActiveList.{Active, svc_timeout, Event, run}
use pfs.ActiveList.Order.{AllAbove, IsSorted, Served, run-IsSorted}

-- now - hbtime >= to
abbrev pub is_idle : ℕ → ℕ → Active → Bool
is_idle now to a = if ltb now (a.hbtime + to) then false else true

-- The connections that pass a test.
pub filter : (Active → Bool) → List Active → List Active
filter test [] = []
filter test (a ∷ l) = let rest = filter test l in if test a then a ∷ rest else rest

none_idle :
    (now to t : ℕ) (l : List Active)
    → now < t + to
    → AllAbove t l
    → (filter (is_idle now to) l ≡ [])
      × (filter (λ a. if is_idle now to a then false else true) l ≡ l)
unfolding filter
none_idle now to t [] h b = (refl, refl)
none_idle now to t (a ∷ l) h b =
    let r = none_idle now to t l h b.1 in
    rw (lt→ltb now (a.hbtime + to) (omega (arith, h, b.0))) (r.0, ap (λ x. a ∷ x) (r.1))

timeout_sorted :
    (now to : ℕ) (l : List Active)
    → IsSorted l
    → svc_timeout now to l ≡ (
      map (λ a. a.fd) (filter (is_idle now to) l),
      filter (λ a. if is_idle now to a then false else true) l,
    )
unfolding svc_timeout filter
timeout_sorted now to [] s = refl
timeout_sorted now to (a ∷ l) s = elim (Bool-cases (ltb now (a.hbtime + to))) [
  | inl y ↦
      let r = none_idle now to a.hbtime l (ltb→lt now (a.hbtime + to) y) s.0 in
      rw (y, r.0, r.1, svc_timeout, filter) refl
  | inr z ↦ rw (z, timeout_sorted now to l s.1, svc_timeout, filter) refl
]

-- When connections are only opened, served and closed, and the clock does not go back, the sweep
-- closes exactly those that have been idle for `to` seconds, in their order, and keeps the others.
pub svc_timeout-run :
    (start now to : ℕ) (es : List (ℕ × Event))
    → Served start es
    → svc_timeout now to (run es []) ≡ (
      map (λ a. a.fd) (filter (is_idle now to) (run es [])),
      filter (λ a. if is_idle now to a then false else true) (run es []),
    )
svc_timeout-run start now to es v =
    timeout_sorted now to (run es []) (run-IsSorted start es [] v tt tt)
