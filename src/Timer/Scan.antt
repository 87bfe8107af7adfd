-- ===== src/Timer/Scan.antt =====
-- What a scan of network/pfs_timer.c calls, and which timers are left.
use pfs.Common.{
  ℕ, ◌+◌, ◌≡◌, refl, sym, ap, ◌∙◌, subst, Bool, true, false, List, [], ◌∷◌, ◌++◌, length,
  length-append, append_assoc, append-nil, arith,
}
use pfs.Timer.{Timer, Timers, start, is_due, visit, scan_from, scan_delay_task}

-- What a timer adds to the calls, and what it leaves active, by whether it is due and a loop.
abbrev pub called : Bool → Timer → List (ℕ × List ℕ)
called false t = []
called true t = (t.cb, t.args) ∷ []

abbrev pub left : Bool → Bool → ℕ → Timer → List Timer
left false loop cur t = t ∷ []
left true true cur t = start cur t ∷ []
left true false cur t = []

-- The calls that are due, in order.
abbrev pub due_calls : ℕ → List Timer → List (ℕ × List ℕ)
due_calls cur [] = []
due_calls cur (t ∷ ts) = called (is_due cur t) t ++ due_calls cur ts

-- The timers that stay active: those that are not due, and the loops, which start anew.
abbrev pub stay : ℕ → List Timer → List Timer
stay cur [] = []
stay cur (t ∷ ts) = left (is_due cur t) t.loop cur t ++ stay cur ts

abbrev pub NoneDue : ℕ → List Timer → Type 0
NoneDue cur [] = Unit {0}
NoneDue cur (t ∷ ts) = (is_due cur t ≡ false) × NoneDue cur ts

visit_lem :
    (d l : Bool) (cur : ℕ) (t : Timer) (s : Timers)
    → ((visit d l cur t s).calls ≡ s.calls ++ called d t)
      × ((visit d l cur t s).delay_active ≡ s.delay_active ++ left d l cur t)
      × (length (visit d l cur t s).delay_home + length (visit d l cur t s).delay_active
          ≡ length s.delay_home + length s.delay_active + 1)
unfolding visit
visit_lem false l cur t s =
    (sym (append-nil s.calls), refl, omega (arith, length-append s.delay_active (t ∷ [])))
visit_lem true true cur t s =
    (refl, refl, omega (arith, length-append s.delay_active (start cur t ∷ [])))
visit_lem true false cur t s = (refl, sym (append-nil s.delay_active), omega arith)

-- `r` is `s` after a scan of `ts`.
record From (cur : ℕ) (ts : List Timer) (s r : Timers) : Type 0 where
  calls : r.calls ≡ s.calls ++ due_calls cur ts
  active : r.delay_active ≡ s.delay_active ++ stay cur ts
  entries :
      length r.delay_home + length r.delay_active
      ≡ length s.delay_home + length s.delay_active + length ts

scan_from-From : (cur : ℕ) (ts : List Timer) (s : Timers) → From cur ts s (scan_from cur ts s)
unfolding scan_from
scan_from-From cur [] s = record {
  calls = sym (append-nil s.calls);
  active = sym (append-nil s.delay_active);
  entries = omega arith;
}
scan_from-From cur (t ∷ ts) s =
    let one = visit_lem (is_due cur t) t.loop cur t s in
    let r = scan_from-From cur ts (visit (is_due cur t) t.loop cur t s) in
    record {
      calls =
          r.calls
          ∙ ap (λ c. c ++ due_calls cur ts) one.0
          ∙ append_assoc s.calls (called (is_due cur t) t) (due_calls cur ts);
      active =
          r.active
          ∙ ap (λ a. a ++ stay cur ts) one.1
          ∙ append_assoc s.delay_active (left (is_due cur t) t.loop cur t) (stay cur ts);
      entries = omega (arith, r.entries, one.2);
    }

left-NoneDue :
    (d l : Bool) (cur : ℕ) (t : Timer) (ts : List Timer)
    → is_due cur t ≡ d
    → NoneDue cur ts
    → NoneDue cur (left d l cur t ++ ts)
left-NoneDue false l cur t ts e n = (e, n)
left-NoneDue true true cur t ts e n = (start_later cur t, n)
  where
    start_later : (now : ℕ) (x : Timer) → is_due now (start now x) ≡ false
    start_later now x = ground arith
left-NoneDue true false cur t ts e n = n

stay-NoneDue : (cur : ℕ) (ts : List Timer) → NoneDue cur (stay cur ts)
stay-NoneDue cur [] = tt
stay-NoneDue cur (t ∷ ts) =
    left-NoneDue (is_due cur t) t.loop cur t (stay cur ts) refl (stay-NoneDue cur ts)

-- A scan calls exactly the timers that are due, each once and in order; those that are not due stay
-- as they are and the loops start anew, in their places; after it no timer is due at this time; and
-- no entry is lost.
pub scan_delay_task_lem :
    (cur : ℕ) (s : Timers)
    → ((scan_delay_task cur s).calls ≡ s.calls ++ due_calls cur s.delay_active)
      × ((scan_delay_task cur s).delay_active ≡ stay cur s.delay_active)
      × NoneDue cur (scan_delay_task cur s).delay_active
      × (length (scan_delay_task cur s).delay_home + length (scan_delay_task cur s).delay_active
          ≡ length s.delay_home + length s.delay_active)
unfolding scan_delay_task
scan_delay_task_lem cur s =
    let r = scan_from-From cur s.delay_active (record s { delay_active = [] }) in
    (
      r.calls,
      r.active,
      subst (NoneDue cur) (sym r.active) (stay-NoneDue cur s.delay_active),
      omega (arith, r.entries),
    )
