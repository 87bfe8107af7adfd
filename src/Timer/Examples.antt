-- ===== src/Timer/Examples.antt =====
-- A scan of network/pfs_timer.c with a loop and a timer for once, both due.
use pfs.Common.{◌+◌, ◌≡◌, true, false, [], ◌∷◌, ◌++◌, length}
use pfs.Timer.{Timers, scan_delay_task}
use pfs.Timer.Scan.{due_calls, stay, NoneDue, scan_delay_task_lem}

abbrev two_timers : Timers
two_timers = record {
  delay_home = [];
  delay_active =
      record { cb = 1; args = []; next_time = 5; span_time = 60; loop = true }
      ∷ record { cb = 2; args = 7 ∷ []; next_time = 6; span_time = 10; loop = false }
      ∷ [];
  calls = [];
}

scan_delay_task_lem_example :
    ((scan_delay_task 9 two_timers).calls ≡ [] ++ due_calls 9 two_timers.delay_active)
    × ((scan_delay_task 9 two_timers).delay_active ≡ stay 9 two_timers.delay_active)
    × NoneDue 9 (scan_delay_task 9 two_timers).delay_active
    × (length (scan_delay_task 9 two_timers).delay_home
          + length (scan_delay_task 9 two_timers).delay_active
        ≡ 0 + length two_timers.delay_active)
scan_delay_task_lem_example = scan_delay_task_lem 9 two_timers
