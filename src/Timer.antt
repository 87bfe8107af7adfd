-- ===== src/Timer.antt =====
-- network/pfs_timer.c: functions that are called later, once or again and again. A callback is a
-- number, and the calls are a list; callbacks that add timers are not modelled.
pub mod Scan
mod Examples
use pfs.Common.{
  ℕ, suc, ◌+◌, Bool, true, false, List, [], ◌∷◌, ◌++◌, ltb, if◌then◌else◌, replicate, ℤ, pos,
  negsuc,
}

pub record Timer : Type 0 where
  pub cb : ℕ
  pub args : List ℕ
  pub next_time : ℕ
  pub span_time : ℕ
  pub loop : Bool

-- `delay_home` holds the entries that are free, with what was in them, `delay_active` the timers.
pub record Timers : Type 0 where
  pub delay_home : List Timer
  pub delay_active : List Timer
  pub calls : List (ℕ × List ℕ)

abbrev pub default_max : ℕ
default_max = 1024

abbrev pub zero_timer : Timer
zero_timer = record { cb = 0; args = []; next_time = 0; span_time = 0; loop = false }

pub delay_task_init : Bool → Timers × ℤ
delay_task_init malloc_ok =
    let empty : Timers = record { delay_home = []; delay_active = []; calls = [] } in
    if malloc_ok
    then (record empty { delay_home = replicate default_max zero_timer }, pos 0)
    else (empty, negsuc 0)

abbrev pub start : ℕ → Timer → Timer
start cur t = record t { next_time = cur + t.span_time }

-- An entry from `delay_home`, or a new one.
pub add_to_delay_task : Bool → ℕ → Timer → Timers → Timers × ℤ
add_to_delay_task malloc_ok cur t s = elim s.delay_home [
  | x ∷ home ↦ (record s { delay_home = home; delay_active = start cur t ∷ s.delay_active }, pos 0)
  | [] ↦
      if malloc_ok
      then (record s { delay_active = start cur t ∷ s.delay_active }, pos 0)
      else (s, negsuc 0)
]

-- cur > next_time
abbrev pub is_due : ℕ → Timer → Bool
is_due cur t = ltb t.next_time cur

-- One timer of the list, by whether it is due and whether it is a loop. Those that stay active keep
-- their places.
pub visit : Bool → Bool → ℕ → Timer → Timers → Timers
visit false loop cur t s = record s { delay_active = s.delay_active ++ t ∷ [] }
visit true true cur t s = record s {
  calls = s.calls ++ (t.cb, t.args) ∷ [];
  delay_active = s.delay_active ++ start cur t ∷ [];
}
visit true false cur t s = record s {
  calls = s.calls ++ (t.cb, t.args) ∷ [];
  delay_home = t ∷ s.delay_home;
}

-- The timers `ts` are still to look at.
pub scan_from : ℕ → List Timer → Timers → Timers
scan_from cur [] s = s
scan_from cur (t ∷ ts) s = scan_from cur ts (visit (is_due cur t) t.loop cur t s)

pub scan_delay_task : ℕ → Timers → Timers
scan_delay_task cur s = scan_from cur s.delay_active (record s { delay_active = [] })
